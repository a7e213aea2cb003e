-- ===== src/SvnError/Codes.antt =====
-- The body of svn_error_codes.h, from SVN_ERROR_START to SVN_ERROR_END, in the order of the file.
mod Common
mod Wc
mod Fs
mod Repos
mod Client
mod Misc
mod Auth
use macstrop.Shared.{List, ◌++◌}
use macstrop.SvnError.Defs.{ErrDef}
use Common.{bad_errors, xml_errors, io_errors, stream_errors, node_errors, entry_errors}
use Wc.{wc_errors_first, wc_errors_second}
use Fs.{fs_errors_first, fs_errors_second}
use Repos.{repos_errors, ra_errors, ra_dav_errors, ra_local_errors, svndiff_errors, apmod_errors}
use Client.{client_errors, cl_errors, ra_svn_errors}
use Misc.{misc_errors_first, misc_errors_second}
use Auth.{authn_errors, authz_errors, diff_errors, ra_serf_errors, malfunc_errors}

unfoldable pub svn_errors : List ErrDef
unfolding bad_errors xml_errors io_errors stream_errors node_errors entry_errors wc_errors_first
    wc_errors_second fs_errors_first fs_errors_second repos_errors ra_errors ra_dav_errors
    ra_local_errors svndiff_errors apmod_errors client_errors misc_errors_first misc_errors_second
    cl_errors ra_svn_errors authn_errors authz_errors diff_errors ra_serf_errors malfunc_errors
svn_errors =
    bad_errors
    ++ (xml_errors
        ++ (io_errors
            ++ (stream_errors
                ++ (node_errors
                    ++ (entry_errors
                        ++ (wc_errors_first
                            ++ (wc_errors_second
                                ++ (fs_errors_first
                                    ++ (fs_errors_second
                                        ++ (repos_errors
                                            ++ (ra_errors
                                                ++ (ra_dav_errors
                                                    ++ (ra_local_errors
                                                        ++ (svndiff_errors
                                                            ++ (apmod_errors
                                                            ++ (client_errors
                                                            ++ (misc_errors_first
                                                            ++ (misc_errors_second
                                                            ++ (cl_errors
                                                            ++ (ra_svn_errors
                                                            ++ (authn_errors
                                                            ++ (authz_errors
                                                            ++ (diff_errors
                                                            ++ (ra_serf_errors
                                                            ++ (malfunc_errors)))))))))))))))))))))))))
