-- ===== src/SvnError/Codes/Client.antt =====
-- The errors of the client, of the command line and of the svn protocol of svn_error_codes.h.
use macstrop.Shared.{List, [], ◌∷◌}
use macstrop.SvnError.Defs.{ErrDef, errdef, category_plus, client, cl, ra_svn}

unfoldable pub client_errors : List ErrDef
client_errors =
    errdef "SVN_ERR_CLIENT_VERSIONED_PATH_REQUIRED" (category_plus client 0)
      "A path under version control is needed for this operation"
    ∷ errdef "SVN_ERR_CLIENT_RA_ACCESS_REQUIRED" (category_plus client 1)
        "Repository access is needed for this operation"
    ∷ errdef "SVN_ERR_CLIENT_BAD_REVISION" (category_plus client 2)
        "Bogus revision information given"
    ∷ errdef "SVN_ERR_CLIENT_DUPLICATE_COMMIT_URL" (category_plus client 3)
        "Attempting to commit to a URL more than once"
    ∷ errdef "SVN_ERR_CLIENT_IS_BINARY_FILE" (category_plus client 4)
        "Operation does not apply to binary file"
    ∷ errdef "SVN_ERR_CLIENT_INVALID_EXTERNALS_DESCRIPTION" (category_plus client 5)
        "Format of an svn:externals property was invalid"
    ∷ errdef "SVN_ERR_CLIENT_MODIFIED" (category_plus client 6)
        "Attempting restricted operation for modified resource"
    ∷ errdef "SVN_ERR_CLIENT_IS_DIRECTORY" (category_plus client 7)
        "Operation does not apply to directory"
    ∷ errdef "SVN_ERR_CLIENT_REVISION_RANGE" (category_plus client 8)
        "Revision range is not allowed"
    ∷ errdef "SVN_ERR_CLIENT_INVALID_RELOCATION" (category_plus client 9)
        "Inter-repository relocation not allowed"
    ∷ errdef "SVN_ERR_CLIENT_REVISION_AUTHOR_CONTAINS_NEWLINE" (category_plus client 10)
        "Author name cannot contain a newline"
    ∷ errdef "SVN_ERR_CLIENT_PROPERTY_NAME" (category_plus client 11) "Bad property name"
    ∷ errdef "SVN_ERR_CLIENT_UNRELATED_RESOURCES" (category_plus client 12)
        "Two versioned resources are unrelated"
    ∷ errdef "SVN_ERR_CLIENT_MISSING_LOCK_TOKEN" (category_plus client 13) "Path has no lock token"
    ∷ errdef "SVN_ERR_CLIENT_MULTIPLE_SOURCES_DISALLOWED" (category_plus client 14)
        "Operation does not support multiple sources"
    ∷ errdef "SVN_ERR_CLIENT_NO_VERSIONED_PARENT" (category_plus client 15)
        "No versioned parent directories"
    ∷ errdef "SVN_ERR_CLIENT_NOT_READY_TO_MERGE" (category_plus client 16)
        "Working copy and merge source not ready for reintegration"
    ∷ errdef "SVN_ERR_CLIENT_FILE_EXTERNAL_OVERWRITE_VERSIONED" (category_plus client 17)
        "A file external cannot overwrite an existing versioned item"
    ∷ errdef "SVN_ERR_CLIENT_PATCH_BAD_STRIP_COUNT" (category_plus client 18)
        "Invalid path component strip count specified"
    ∷ errdef "SVN_ERR_CLIENT_CYCLE_DETECTED" (category_plus client 19)
        "Detected a cycle while processing the operation"
    ∷ errdef "SVN_ERR_CLIENT_MERGE_UPDATE_REQUIRED" (category_plus client 20)
        "Working copy and merge source not ready for reintegration"
    ∷ errdef "SVN_ERR_CLIENT_INVALID_MERGEINFO_NO_MERGETRACKING" (category_plus client 21)
        "Invalid mergeinfo detected in merge target"
    ∷ errdef "SVN_ERR_CLIENT_NO_LOCK_TOKEN" (category_plus client 22)
        "Can't perform this operation without a valid lock token"
    ∷ errdef "SVN_ERR_CLIENT_FORBIDDEN_BY_SERVER" (category_plus client 23)
        "The operation is forbidden by the server"
    ∷ []

unfoldable pub cl_errors : List ErrDef
cl_errors =
    errdef "SVN_ERR_CL_ARG_PARSING_ERROR" (category_plus cl 0) "Error parsing arguments"
    ∷ errdef "SVN_ERR_CL_INSUFFICIENT_ARGS" (category_plus cl 1) "Not enough arguments provided"
    ∷ errdef "SVN_ERR_CL_MUTUALLY_EXCLUSIVE_ARGS" (category_plus cl 2)
        "Mutually exclusive arguments specified"
    ∷ errdef "SVN_ERR_CL_ADM_DIR_RESERVED" (category_plus cl 3)
        "Attempted command in administrative dir"
    ∷ errdef "SVN_ERR_CL_LOG_MESSAGE_IS_VERSIONED_FILE" (category_plus cl 4)
        "The log message file is under version control"
    ∷ errdef "SVN_ERR_CL_LOG_MESSAGE_IS_PATHNAME" (category_plus cl 5)
        "The log message is a pathname"
    ∷ errdef "SVN_ERR_CL_COMMIT_IN_ADDED_DIR" (category_plus cl 6)
        "Committing in directory scheduled for addition"
    ∷ errdef "SVN_ERR_CL_NO_EXTERNAL_EDITOR" (category_plus cl 7) "No external editor available"
    ∷ errdef "SVN_ERR_CL_BAD_LOG_MESSAGE" (category_plus cl 8)
        "Something is wrong with the log message's contents"
    ∷ errdef "SVN_ERR_CL_UNNECESSARY_LOG_MESSAGE" (category_plus cl 9)
        "A log message was given where none was necessary"
    ∷ errdef "SVN_ERR_CL_NO_EXTERNAL_MERGE_TOOL" (category_plus cl 10)
        "No external merge tool available"
    ∷ errdef "SVN_ERR_CL_ERROR_PROCESSING_EXTERNALS" (category_plus cl 11)
        "Failed processing one or more externals definitions"
    ∷ []

unfoldable pub ra_svn_errors : List ErrDef
ra_svn_errors =
    errdef "SVN_ERR_RA_SVN_CMD_ERR" (category_plus ra_svn 0)
      "Special code for wrapping server errors to report to client"
    ∷ errdef "SVN_ERR_RA_SVN_UNKNOWN_CMD" (category_plus ra_svn 1) "Unknown svn protocol command"
    ∷ errdef "SVN_ERR_RA_SVN_CONNECTION_CLOSED" (category_plus ra_svn 2)
        "Network connection closed unexpectedly"
    ∷ errdef "SVN_ERR_RA_SVN_IO_ERROR" (category_plus ra_svn 3) "Network read/write error"
    ∷ errdef "SVN_ERR_RA_SVN_MALFORMED_DATA" (category_plus ra_svn 4) "Malformed network data"
    ∷ errdef "SVN_ERR_RA_SVN_REPOS_NOT_FOUND" (category_plus ra_svn 5) "Couldn't find a repository"
    ∷ errdef "SVN_ERR_RA_SVN_BAD_VERSION" (category_plus ra_svn 6) "Client/server version mismatch"
    ∷ errdef "SVN_ERR_RA_SVN_NO_MECHANISMS" (category_plus ra_svn 7)
        "Cannot negotiate authentication mechanism"
    ∷ errdef "SVN_ERR_RA_SVN_EDIT_ABORTED" (category_plus ra_svn 8) "Editor drive was aborted"
    ∷ []
