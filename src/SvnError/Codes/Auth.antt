-- ===== src/SvnError/Codes/Auth.antt =====
-- The errors of authentication, authorization, differences and serf, and malfunctions of svn_error_codes.h.
use macstrop.Shared.{List, [], ◌∷◌}
use macstrop.SvnError.Defs.{ErrDef, errdef, category_plus, authn, authz, diff, ra_serf, malfunc}

unfoldable pub authn_errors : List ErrDef
authn_errors =
    errdef "SVN_ERR_AUTHN_CREDS_UNAVAILABLE" (category_plus authn 0) "Credential data unavailable"
    ∷ errdef "SVN_ERR_AUTHN_NO_PROVIDER" (category_plus authn 1)
        "No authentication provider available"
    ∷ errdef "SVN_ERR_AUTHN_PROVIDERS_EXHAUSTED" (category_plus authn 2)
        "All authentication providers exhausted"
    ∷ errdef "SVN_ERR_AUTHN_CREDS_NOT_SAVED" (category_plus authn 3) "Credentials not saved"
    ∷ errdef "SVN_ERR_AUTHN_FAILED" (category_plus authn 4) "Authentication failed"
    ∷ []

unfoldable pub authz_errors : List ErrDef
authz_errors =
    errdef "SVN_ERR_AUTHZ_ROOT_UNREADABLE" (category_plus authz 0)
      "Read access denied for root of edit"
    ∷ errdef "SVN_ERR_AUTHZ_UNREADABLE" (category_plus authz 1) "Item is not readable"
    ∷ errdef "SVN_ERR_AUTHZ_PARTIALLY_READABLE" (category_plus authz 2) "Item is partially readable"
    ∷ errdef "SVN_ERR_AUTHZ_INVALID_CONFIG" (category_plus authz 3) "Invalid authz configuration"
    ∷ errdef "SVN_ERR_AUTHZ_UNWRITABLE" (category_plus authz 4) "Item is not writable"
    ∷ []

unfoldable pub diff_errors : List ErrDef
diff_errors =
    errdef "SVN_ERR_DIFF_DATASOURCE_MODIFIED" (category_plus diff 0)
      "Diff data source modified unexpectedly"
    ∷ []

unfoldable pub ra_serf_errors : List ErrDef
ra_serf_errors =
    errdef "SVN_ERR_RA_SERF_SSPI_INITIALISATION_FAILED" (category_plus ra_serf 0)
      "Initialization of SSPI library failed"
    ∷ errdef "SVN_ERR_RA_SERF_SSL_CERT_UNTRUSTED" (category_plus ra_serf 1)
        "Server SSL certificate untrusted"
    ∷ errdef "SVN_ERR_RA_SERF_GSSAPI_INITIALISATION_FAILED" (category_plus ra_serf 2)
        "Initialization of the GSSAPI context failed"
    ∷ errdef "SVN_ERR_RA_SERF_WRAPPED_ERROR" (category_plus ra_serf 3)
        "While handling serf response:"
    ∷ []

unfoldable pub malfunc_errors : List ErrDef
malfunc_errors =
    errdef "SVN_ERR_ASSERTION_FAIL" (category_plus malfunc 0) "Assertion failure"
    ∷ errdef "SVN_ERR_ASSERTION_ONLY_TRACING_LINKS" (category_plus malfunc 1)
        "No non-tracing links found in the error chain"
    ∷ []
