-- ===== src/SvnError/Codes/Fs.antt =====
-- The errors of the file system of svn_error_codes.h.
use macstrop.Shared.{List, [], ◌∷◌}
use macstrop.SvnError.Defs.{ErrDef, errdef, category_plus, fs}

unfoldable pub fs_errors_first : List ErrDef
fs_errors_first =
    errdef "SVN_ERR_FS_GENERAL" (category_plus fs 0) "General filesystem error"
    ∷ errdef "SVN_ERR_FS_CLEANUP" (category_plus fs 1) "Error closing filesystem"
    ∷ errdef "SVN_ERR_FS_ALREADY_OPEN" (category_plus fs 2) "Filesystem is already open"
    ∷ errdef "SVN_ERR_FS_NOT_OPEN" (category_plus fs 3) "Filesystem is not open"
    ∷ errdef "SVN_ERR_FS_CORRUPT" (category_plus fs 4) "Filesystem is corrupt"
    ∷ errdef "SVN_ERR_FS_PATH_SYNTAX" (category_plus fs 5) "Invalid filesystem path syntax"
    ∷ errdef "SVN_ERR_FS_NO_SUCH_REVISION" (category_plus fs 6) "Invalid filesystem revision number"
    ∷ errdef "SVN_ERR_FS_NO_SUCH_TRANSACTION" (category_plus fs 7)
        "Invalid filesystem transaction name"
    ∷ errdef "SVN_ERR_FS_NO_SUCH_ENTRY" (category_plus fs 8)
        "Filesystem directory has no such entry"
    ∷ errdef "SVN_ERR_FS_NO_SUCH_REPRESENTATION" (category_plus fs 9)
        "Filesystem has no such representation"
    ∷ errdef "SVN_ERR_FS_NO_SUCH_STRING" (category_plus fs 10) "Filesystem has no such string"
    ∷ errdef "SVN_ERR_FS_NO_SUCH_COPY" (category_plus fs 11) "Filesystem has no such copy"
    ∷ errdef "SVN_ERR_FS_TRANSACTION_NOT_MUTABLE" (category_plus fs 12)
        "The specified transaction is not mutable"
    ∷ errdef "SVN_ERR_FS_NOT_FOUND" (category_plus fs 13) "Filesystem has no item"
    ∷ errdef "SVN_ERR_FS_ID_NOT_FOUND" (category_plus fs 14) "Filesystem has no such node-rev-id"
    ∷ errdef "SVN_ERR_FS_NOT_ID" (category_plus fs 15)
        "String does not represent a node or node-rev-id"
    ∷ errdef "SVN_ERR_FS_NOT_DIRECTORY" (category_plus fs 16)
        "Name does not refer to a filesystem directory"
    ∷ errdef "SVN_ERR_FS_NOT_FILE" (category_plus fs 17) "Name does not refer to a filesystem file"
    ∷ errdef "SVN_ERR_FS_NOT_SINGLE_PATH_COMPONENT" (category_plus fs 18)
        "Name is not a single path component"
    ∷ errdef "SVN_ERR_FS_NOT_MUTABLE" (category_plus fs 19)
        "Attempt to change immutable filesystem node"
    ∷ errdef "SVN_ERR_FS_ALREADY_EXISTS" (category_plus fs 20) "Item already exists in filesystem"
    ∷ errdef "SVN_ERR_FS_ROOT_DIR" (category_plus fs 21) "Attempt to remove or recreate fs root dir"
    ∷ errdef "SVN_ERR_FS_NOT_TXN_ROOT" (category_plus fs 22) "Object is not a transaction root"
    ∷ errdef "SVN_ERR_FS_NOT_REVISION_ROOT" (category_plus fs 23) "Object is not a revision root"
    ∷ errdef "SVN_ERR_FS_CONFLICT" (category_plus fs 24) "Merge conflict during commit"
    ∷ errdef "SVN_ERR_FS_REP_CHANGED" (category_plus fs 25)
        "A representation vanished or changed between reads"
    ∷ errdef "SVN_ERR_FS_REP_NOT_MUTABLE" (category_plus fs 26)
        "Tried to change an immutable representation"
    ∷ errdef "SVN_ERR_FS_MALFORMED_SKEL" (category_plus fs 27) "Malformed skeleton data"
    ∷ errdef "SVN_ERR_FS_TXN_OUT_OF_DATE" (category_plus fs 28) "Transaction is out of date"
    ∷ errdef "SVN_ERR_FS_BERKELEY_DB" (category_plus fs 29) "Berkeley DB error"
    ∷ errdef "SVN_ERR_FS_BERKELEY_DB_DEADLOCK" (category_plus fs 30) "Berkeley DB deadlock error"
    ∷ errdef "SVN_ERR_FS_TRANSACTION_DEAD" (category_plus fs 31) "Transaction is dead"
    ∷ errdef "SVN_ERR_FS_TRANSACTION_NOT_DEAD" (category_plus fs 32) "Transaction is not dead"
    ∷ errdef "SVN_ERR_FS_UNKNOWN_FS_TYPE" (category_plus fs 33) "Unknown FS type"
    ∷ errdef "SVN_ERR_FS_NO_USER" (category_plus fs 34) "No user associated with filesystem"
    ∷ []

unfoldable pub fs_errors_second : List ErrDef
fs_errors_second =
    errdef "SVN_ERR_FS_PATH_ALREADY_LOCKED" (category_plus fs 35) "Path is already locked"
    ∷ errdef "SVN_ERR_FS_PATH_NOT_LOCKED" (category_plus fs 36) "Path is not locked"
    ∷ errdef "SVN_ERR_FS_BAD_LOCK_TOKEN" (category_plus fs 37) "Lock token is incorrect"
    ∷ errdef "SVN_ERR_FS_NO_LOCK_TOKEN" (category_plus fs 38) "No lock token provided"
    ∷ errdef "SVN_ERR_FS_LOCK_OWNER_MISMATCH" (category_plus fs 39)
        "Username does not match lock owner"
    ∷ errdef "SVN_ERR_FS_NO_SUCH_LOCK" (category_plus fs 40) "Filesystem has no such lock"
    ∷ errdef "SVN_ERR_FS_LOCK_EXPIRED" (category_plus fs 41) "Lock has expired"
    ∷ errdef "SVN_ERR_FS_OUT_OF_DATE" (category_plus fs 42) "Item is out of date"
    ∷ errdef "SVN_ERR_FS_UNSUPPORTED_FORMAT" (category_plus fs 43) "Unsupported FS format"
    ∷ errdef "SVN_ERR_FS_REP_BEING_WRITTEN" (category_plus fs 44) "Representation is being written"
    ∷ errdef "SVN_ERR_FS_TXN_NAME_TOO_LONG" (category_plus fs 45)
        "The generated transaction name is too long"
    ∷ errdef "SVN_ERR_FS_NO_SUCH_NODE_ORIGIN" (category_plus fs 46)
        "Filesystem has no such node origin record"
    ∷ errdef "SVN_ERR_FS_UNSUPPORTED_UPGRADE" (category_plus fs 47)
        "Filesystem upgrade is not supported"
    ∷ errdef "SVN_ERR_FS_NO_SUCH_CHECKSUM_REP" (category_plus fs 48)
        "Filesystem has no such checksum-representation index record"
    ∷ errdef "SVN_ERR_FS_PROP_BASEVALUE_MISMATCH" (category_plus fs 49)
        "Property value in filesystem differs from the provided base value"
    ∷ errdef "SVN_ERR_FS_INCORRECT_EDITOR_COMPLETION" (category_plus fs 50)
        "The filesystem editor completion process was not followed"
    ∷ errdef "SVN_ERR_FS_PACKED_REVPROP_READ_FAILURE" (category_plus fs 51)
        "A packed revprop could not be read"
    ∷ errdef "SVN_ERR_FS_REVPROP_CACHE_INIT_FAILURE" (category_plus fs 52)
        "Could not initialize the revprop caching infrastructure."
    ∷ []
