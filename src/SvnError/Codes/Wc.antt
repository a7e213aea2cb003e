-- ===== src/SvnError/Codes/Wc.antt =====
-- The errors of the working copy of svn_error_codes.h.
use macstrop.Shared.{List, [], ◌∷◌}
use macstrop.SvnError.Defs.{ErrDef, errdef, category_plus, same_as, wc}

unfoldable pub wc_errors_first : List ErrDef
wc_errors_first =
    errdef "SVN_ERR_WC_OBSTRUCTED_UPDATE" (category_plus wc 0) "Obstructed update"
    ∷ errdef "SVN_ERR_WC_UNWIND_MISMATCH" (category_plus wc 1)
        "Mismatch popping the WC unwind stack"
    ∷ errdef "SVN_ERR_WC_UNWIND_EMPTY" (category_plus wc 2) "Attempt to pop empty WC unwind stack"
    ∷ errdef "SVN_ERR_WC_UNWIND_NOT_EMPTY" (category_plus wc 3)
        "Attempt to unlock with non-empty unwind stack"
    ∷ errdef "SVN_ERR_WC_LOCKED" (category_plus wc 4) "Attempted to lock an already-locked dir"
    ∷ errdef "SVN_ERR_WC_NOT_LOCKED" (category_plus wc 5)
        "Working copy not locked; this is probably a bug, please report"
    ∷ errdef "SVN_ERR_WC_INVALID_LOCK" (category_plus wc 6) "Invalid lock"
    ∷ errdef "SVN_ERR_WC_NOT_WORKING_COPY" (category_plus wc 7)
        "Path is not a working copy directory"
    ∷ errdef "SVN_ERR_WC_NOT_DIRECTORY" (same_as "SVN_ERR_WC_NOT_WORKING_COPY")
        "Path is not a working copy directory"
    ∷ errdef "SVN_ERR_WC_NOT_FILE" (category_plus wc 8) "Path is not a working copy file"
    ∷ errdef "SVN_ERR_WC_BAD_ADM_LOG" (category_plus wc 9) "Problem running log"
    ∷ errdef "SVN_ERR_WC_PATH_NOT_FOUND" (category_plus wc 10) "Can't find a working copy path"
    ∷ errdef "SVN_ERR_WC_NOT_UP_TO_DATE" (category_plus wc 11) "Working copy is not up-to-date"
    ∷ errdef "SVN_ERR_WC_LEFT_LOCAL_MOD" (category_plus wc 12)
        "Left locally modified or unversioned files"
    ∷ errdef "SVN_ERR_WC_SCHEDULE_CONFLICT" (category_plus wc 13)
        "Unmergeable scheduling requested on an entry"
    ∷ errdef "SVN_ERR_WC_PATH_FOUND" (category_plus wc 14) "Found a working copy path"
    ∷ errdef "SVN_ERR_WC_FOUND_CONFLICT" (category_plus wc 15)
        "A conflict in the working copy obstructs the current operation"
    ∷ errdef "SVN_ERR_WC_CORRUPT" (category_plus wc 16) "Working copy is corrupt"
    ∷ errdef "SVN_ERR_WC_CORRUPT_TEXT_BASE" (category_plus wc 17)
        "Working copy text base is corrupt"
    ∷ errdef "SVN_ERR_WC_NODE_KIND_CHANGE" (category_plus wc 18) "Cannot change node kind"
    ∷ errdef "SVN_ERR_WC_INVALID_OP_ON_CWD" (category_plus wc 19)
        "Invalid operation on the current working directory"
    ∷ errdef "SVN_ERR_WC_BAD_ADM_LOG_START" (category_plus wc 20)
        "Problem on first log entry in a working copy"
    ∷ errdef "SVN_ERR_WC_UNSUPPORTED_FORMAT" (category_plus wc 21) "Unsupported working copy format"
    ∷ errdef "SVN_ERR_WC_BAD_PATH" (category_plus wc 22) "Path syntax not supported in this context"
    ∷ errdef "SVN_ERR_WC_INVALID_SCHEDULE" (category_plus wc 23) "Invalid schedule"
    ∷ errdef "SVN_ERR_WC_INVALID_RELOCATION" (category_plus wc 24) "Invalid relocation"
    ∷ errdef "SVN_ERR_WC_INVALID_SWITCH" (category_plus wc 25) "Invalid switch"
    ∷ errdef "SVN_ERR_WC_MISMATCHED_CHANGELIST" (category_plus wc 26) "Changelist doesn't match"
    ∷ errdef "SVN_ERR_WC_CONFLICT_RESOLVER_FAILURE" (category_plus wc 27)
        "Conflict resolution failed"
    ∷ errdef "SVN_ERR_WC_COPYFROM_PATH_NOT_FOUND" (category_plus wc 28)
        "Failed to locate 'copyfrom' path in working copy"
    ∷ errdef "SVN_ERR_WC_CHANGELIST_MOVE" (category_plus wc 29)
        "Moving a path from one changelist to another"
    ∷ []

unfoldable pub wc_errors_second : List ErrDef
wc_errors_second =
    errdef "SVN_ERR_WC_CANNOT_DELETE_FILE_EXTERNAL" (category_plus wc 30)
      "Cannot delete a file external"
    ∷ errdef "SVN_ERR_WC_CANNOT_MOVE_FILE_EXTERNAL" (category_plus wc 31)
        "Cannot move a file external"
    ∷ errdef "SVN_ERR_WC_DB_ERROR" (category_plus wc 32)
        "Something's amiss with the wc sqlite database"
    ∷ errdef "SVN_ERR_WC_MISSING" (category_plus wc 33) "The working copy is missing"
    ∷ errdef "SVN_ERR_WC_NOT_SYMLINK" (category_plus wc 34) "The specified node is not a symlink"
    ∷ errdef "SVN_ERR_WC_PATH_UNEXPECTED_STATUS" (category_plus wc 35)
        "The specified path has an unexpected status"
    ∷ errdef "SVN_ERR_WC_UPGRADE_REQUIRED" (category_plus wc 36)
        "The working copy needs to be upgraded"
    ∷ errdef "SVN_ERR_WC_CLEANUP_REQUIRED" (category_plus wc 37)
        "Previous operation has not finished; run 'cleanup' if it was interrupted"
    ∷ errdef "SVN_ERR_WC_INVALID_OPERATION_DEPTH" (category_plus wc 38)
        "The operation cannot be performed with the specified depth"
    ∷ errdef "SVN_ERR_WC_PATH_ACCESS_DENIED" (category_plus wc 39)
        "Couldn't open a working copy file because access was denied"
    ∷ errdef "SVN_ERR_WC_MIXED_REVISIONS" (category_plus wc 40)
        "Mixed-revision working copy was found but not expected"
    ∷ errdef "SVN_ERR_WC_DUPLICATE_EXTERNALS_TARGET" (category_plus wc 41)
        "Duplicate targets in svn:externals property"
    ∷ []
