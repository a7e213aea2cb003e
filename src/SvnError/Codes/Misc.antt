-- ===== src/SvnError/Codes/Misc.antt =====
-- The miscellaneous errors of svn_error_codes.h.
use macstrop.Shared.{List, [], ◌∷◌}
use macstrop.SvnError.Defs.{ErrDef, errdef, category_plus, misc}

unfoldable pub misc_errors_first : List ErrDef
misc_errors_first =
    errdef "SVN_ERR_BASE" (category_plus misc 0) "A problem occurred; see other errors for details"
    ∷ errdef "SVN_ERR_PLUGIN_LOAD_FAILURE" (category_plus misc 1) "Failure loading plugin"
    ∷ errdef "SVN_ERR_MALFORMED_FILE" (category_plus misc 2) "Malformed file"
    ∷ errdef "SVN_ERR_INCOMPLETE_DATA" (category_plus misc 3) "Incomplete data"
    ∷ errdef "SVN_ERR_INCORRECT_PARAMS" (category_plus misc 4) "Incorrect parameters given"
    ∷ errdef "SVN_ERR_UNVERSIONED_RESOURCE" (category_plus misc 5)
        "Tried a versioning operation on an unversioned resource"
    ∷ errdef "SVN_ERR_TEST_FAILED" (category_plus misc 6) "Test failed"
    ∷ errdef "SVN_ERR_UNSUPPORTED_FEATURE" (category_plus misc 7)
        "Trying to use an unsupported feature"
    ∷ errdef "SVN_ERR_BAD_PROP_KIND" (category_plus misc 8) "Unexpected or unknown property kind"
    ∷ errdef "SVN_ERR_ILLEGAL_TARGET" (category_plus misc 9)
        "Illegal target for the requested operation"
    ∷ errdef "SVN_ERR_DELTA_MD5_CHECKSUM_ABSENT" (category_plus misc 10) "MD5 checksum is missing"
    ∷ errdef "SVN_ERR_DIR_NOT_EMPTY" (category_plus misc 11)
        "Directory needs to be empty but is not"
    ∷ errdef "SVN_ERR_EXTERNAL_PROGRAM" (category_plus misc 12) "Error calling external program"
    ∷ errdef "SVN_ERR_SWIG_PY_EXCEPTION_SET" (category_plus misc 13)
        "Python exception has been set with the error"
    ∷ errdef "SVN_ERR_CHECKSUM_MISMATCH" (category_plus misc 14) "A checksum mismatch occurred"
    ∷ errdef "SVN_ERR_CANCELLED" (category_plus misc 15) "The operation was interrupted"
    ∷ errdef "SVN_ERR_INVALID_DIFF_OPTION" (category_plus misc 16)
        "The specified diff option is not supported"
    ∷ errdef "SVN_ERR_PROPERTY_NOT_FOUND" (category_plus misc 17) "Property not found"
    ∷ errdef "SVN_ERR_NO_AUTH_FILE_PATH" (category_plus misc 18) "No auth file path available"
    ∷ errdef "SVN_ERR_VERSION_MISMATCH" (category_plus misc 19) "Incompatible library version"
    ∷ errdef "SVN_ERR_MERGEINFO_PARSE_ERROR" (category_plus misc 20) "Mergeinfo parse error"
    ∷ errdef "SVN_ERR_CEASE_INVOCATION" (category_plus misc 21) "Cease invocation of this API"
    ∷ errdef "SVN_ERR_REVNUM_PARSE_FAILURE" (category_plus misc 22) "Error parsing revision number"
    ∷ errdef "SVN_ERR_ITER_BREAK" (category_plus misc 23) "Iteration terminated before completion"
    ∷ errdef "SVN_ERR_UNKNOWN_CHANGELIST" (category_plus misc 24) "Unknown changelist"
    ∷ errdef "SVN_ERR_RESERVED_FILENAME_SPECIFIED" (category_plus misc 25)
        "Reserved directory name in command line arguments"
    ∷ errdef "SVN_ERR_UNKNOWN_CAPABILITY" (category_plus misc 26) "Inquiry about unknown capability"
    ∷ errdef "SVN_ERR_TEST_SKIPPED" (category_plus misc 27) "Test skipped"
    ∷ errdef "SVN_ERR_NO_APR_MEMCACHE" (category_plus misc 28) "APR memcache library not available"
    ∷ errdef "SVN_ERR_ATOMIC_INIT_FAILURE" (category_plus misc 29)
        "Couldn't perform atomic initialization"
    ∷ errdef "SVN_ERR_SQLITE_ERROR" (category_plus misc 30) "SQLite error"
    ∷ errdef "SVN_ERR_SQLITE_READONLY" (category_plus misc 31)
        "Attempted to write to readonly SQLite db"
    ∷ []

unfoldable pub misc_errors_second : List ErrDef
misc_errors_second =
    errdef "SVN_ERR_SQLITE_UNSUPPORTED_SCHEMA" (category_plus misc 32)
      "Unsupported schema found in SQLite db"
    ∷ errdef "SVN_ERR_SQLITE_BUSY" (category_plus misc 33) "The SQLite db is busy"
    ∷ errdef "SVN_ERR_SQLITE_RESETTING_FOR_ROLLBACK" (category_plus misc 34)
        "SQLite busy at transaction rollback; resetting all busy SQLite statements to allow rollback"
    ∷ errdef "SVN_ERR_SQLITE_CONSTRAINT" (category_plus misc 35) "Constraint error in SQLite db"
    ∷ errdef "SVN_ERR_TOO_MANY_MEMCACHED_SERVERS" (category_plus misc 36)
        "Too many memcached servers configured"
    ∷ errdef "SVN_ERR_MALFORMED_VERSION_STRING" (category_plus misc 37)
        "Failed to parse version number string"
    ∷ errdef "SVN_ERR_CORRUPTED_ATOMIC_STORAGE" (category_plus misc 38)
        "Atomic data storage is corrupt"
    ∷ []
