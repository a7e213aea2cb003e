-- ===== src/SvnError/Codes/Repos.antt =====
-- The errors of the repository, of repository access, of svndiff and of the Apache module of svn_error_codes.h.
use macstrop.Shared.{List, [], ◌∷◌}
use macstrop.SvnError.Defs.{
  ErrDef, errdef, category_plus, repos, ra, ra_dav, ra_local, svndiff, apmod,
}

unfoldable pub repos_errors : List ErrDef
repos_errors =
    errdef "SVN_ERR_REPOS_LOCKED" (category_plus repos 0)
      "The repository is locked, perhaps for db recovery"
    ∷ errdef "SVN_ERR_REPOS_HOOK_FAILURE" (category_plus repos 1) "A repository hook failed"
    ∷ errdef "SVN_ERR_REPOS_BAD_ARGS" (category_plus repos 2) "Incorrect arguments supplied"
    ∷ errdef "SVN_ERR_REPOS_NO_DATA_FOR_REPORT" (category_plus repos 3)
        "A report cannot be generated because no data was supplied"
    ∷ errdef "SVN_ERR_REPOS_BAD_REVISION_REPORT" (category_plus repos 4) "Bogus revision report"
    ∷ errdef "SVN_ERR_REPOS_UNSUPPORTED_VERSION" (category_plus repos 5)
        "Unsupported repository version"
    ∷ errdef "SVN_ERR_REPOS_DISABLED_FEATURE" (category_plus repos 6) "Disabled repository feature"
    ∷ errdef "SVN_ERR_REPOS_POST_COMMIT_HOOK_FAILED" (category_plus repos 7)
        "Error running post-commit hook"
    ∷ errdef "SVN_ERR_REPOS_POST_LOCK_HOOK_FAILED" (category_plus repos 8)
        "Error running post-lock hook"
    ∷ errdef "SVN_ERR_REPOS_POST_UNLOCK_HOOK_FAILED" (category_plus repos 9)
        "Error running post-unlock hook"
    ∷ errdef "SVN_ERR_REPOS_UNSUPPORTED_UPGRADE" (category_plus repos 10)
        "Repository upgrade is not supported"
    ∷ []

unfoldable pub ra_errors : List ErrDef
ra_errors =
    errdef "SVN_ERR_RA_ILLEGAL_URL" (category_plus ra 0) "Bad URL passed to RA layer"
    ∷ errdef "SVN_ERR_RA_NOT_AUTHORIZED" (category_plus ra 1) "Authorization failed"
    ∷ errdef "SVN_ERR_RA_UNKNOWN_AUTH" (category_plus ra 2) "Unknown authorization method"
    ∷ errdef "SVN_ERR_RA_NOT_IMPLEMENTED" (category_plus ra 3)
        "Repository access method not implemented"
    ∷ errdef "SVN_ERR_RA_OUT_OF_DATE" (category_plus ra 4) "Item is out of date"
    ∷ errdef "SVN_ERR_RA_NO_REPOS_UUID" (category_plus ra 5) "Repository has no UUID"
    ∷ errdef "SVN_ERR_RA_UNSUPPORTED_ABI_VERSION" (category_plus ra 6)
        "Unsupported RA plugin ABI version"
    ∷ errdef "SVN_ERR_RA_NOT_LOCKED" (category_plus ra 7) "Path is not locked"
    ∷ errdef "SVN_ERR_RA_PARTIAL_REPLAY_NOT_SUPPORTED" (category_plus ra 8)
        "Server can only replay from the root of a repository"
    ∷ errdef "SVN_ERR_RA_UUID_MISMATCH" (category_plus ra 9)
        "Repository UUID does not match expected UUID"
    ∷ errdef "SVN_ERR_RA_REPOS_ROOT_URL_MISMATCH" (category_plus ra 10)
        "Repository root URL does not match expected root URL"
    ∷ errdef "SVN_ERR_RA_SESSION_URL_MISMATCH" (category_plus ra 11)
        "Session URL does not match expected session URL"
    ∷ errdef "SVN_ERR_RA_CANNOT_CREATE_TUNNEL" (category_plus ra 12) "Can't create tunnel"
    ∷ []

unfoldable pub ra_dav_errors : List ErrDef
ra_dav_errors =
    errdef "SVN_ERR_RA_DAV_SOCK_INIT" (category_plus ra_dav 0)
      "RA layer failed to init socket layer"
    ∷ errdef "SVN_ERR_RA_DAV_CREATING_REQUEST" (category_plus ra_dav 1)
        "RA layer failed to create HTTP request"
    ∷ errdef "SVN_ERR_RA_DAV_REQUEST_FAILED" (category_plus ra_dav 2) "RA layer request failed"
    ∷ errdef "SVN_ERR_RA_DAV_OPTIONS_REQ_FAILED" (category_plus ra_dav 3)
        "RA layer didn't receive requested OPTIONS info"
    ∷ errdef "SVN_ERR_RA_DAV_PROPS_NOT_FOUND" (category_plus ra_dav 4)
        "RA layer failed to fetch properties"
    ∷ errdef "SVN_ERR_RA_DAV_ALREADY_EXISTS" (category_plus ra_dav 5) "RA layer file already exists"
    ∷ errdef "SVN_ERR_RA_DAV_INVALID_CONFIG_VALUE" (category_plus ra_dav 6)
        "Invalid configuration value"
    ∷ errdef "SVN_ERR_RA_DAV_PATH_NOT_FOUND" (category_plus ra_dav 7) "HTTP Path Not Found"
    ∷ errdef "SVN_ERR_RA_DAV_PROPPATCH_FAILED" (category_plus ra_dav 8)
        "Failed to execute WebDAV PROPPATCH"
    ∷ errdef "SVN_ERR_RA_DAV_MALFORMED_DATA" (category_plus ra_dav 9) "Malformed network data"
    ∷ errdef "SVN_ERR_RA_DAV_RESPONSE_HEADER_BADNESS" (category_plus ra_dav 10)
        "Unable to extract data from response header"
    ∷ errdef "SVN_ERR_RA_DAV_RELOCATED" (category_plus ra_dav 11) "Repository has been moved"
    ∷ errdef "SVN_ERR_RA_DAV_CONN_TIMEOUT" (category_plus ra_dav 12) "Connection timed out"
    ∷ errdef "SVN_ERR_RA_DAV_FORBIDDEN" (category_plus ra_dav 13)
        "URL access forbidden for unknown reason"
    ∷ []

unfoldable pub ra_local_errors : List ErrDef
ra_local_errors =
    errdef "SVN_ERR_RA_LOCAL_REPOS_NOT_FOUND" (category_plus ra_local 0)
      "Couldn't find a repository"
    ∷ errdef "SVN_ERR_RA_LOCAL_REPOS_OPEN_FAILED" (category_plus ra_local 1)
        "Couldn't open a repository"
    ∷ []

unfoldable pub svndiff_errors : List ErrDef
svndiff_errors =
    errdef "SVN_ERR_SVNDIFF_INVALID_HEADER" (category_plus svndiff 0)
      "Svndiff data has invalid header"
    ∷ errdef "SVN_ERR_SVNDIFF_CORRUPT_WINDOW" (category_plus svndiff 1)
        "Svndiff data contains corrupt window"
    ∷ errdef "SVN_ERR_SVNDIFF_BACKWARD_VIEW" (category_plus svndiff 2)
        "Svndiff data contains backward-sliding source view"
    ∷ errdef "SVN_ERR_SVNDIFF_INVALID_OPS" (category_plus svndiff 3)
        "Svndiff data contains invalid instruction"
    ∷ errdef "SVN_ERR_SVNDIFF_UNEXPECTED_END" (category_plus svndiff 4)
        "Svndiff data ends unexpectedly"
    ∷ errdef "SVN_ERR_SVNDIFF_INVALID_COMPRESSED_DATA" (category_plus svndiff 5)
        "Svndiff compressed data is invalid"
    ∷ []

unfoldable pub apmod_errors : List ErrDef
apmod_errors =
    errdef "SVN_ERR_APMOD_MISSING_PATH_TO_FS" (category_plus apmod 0)
      "Apache has no path to an SVN filesystem"
    ∷ errdef "SVN_ERR_APMOD_MALFORMED_URI" (category_plus apmod 1) "Apache got a malformed URI"
    ∷ errdef "SVN_ERR_APMOD_ACTIVITY_NOT_FOUND" (category_plus apmod 2) "Activity not found"
    ∷ errdef "SVN_ERR_APMOD_BAD_BASELINE" (category_plus apmod 3) "Baseline incorrect"
    ∷ errdef "SVN_ERR_APMOD_CONNECTION_ABORTED" (category_plus apmod 4) "Input/output error"
    ∷ []
