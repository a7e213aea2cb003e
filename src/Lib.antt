-- ===== src/Lib.antt =====
-- macstrop is a tree of MacPorts ports. Most of it is Portfiles and patches; this library models
-- code in C and C++ that the tree carries itself, and four of its port groups in Tcl. The parts do
-- not call each other.
--
-- KWindowInfo (kf5/KF5-Frameworks/files/kwindowsystem/kwindowinfo.cpp and kwindowinfo_mac_p.h) is
-- the Mac implementation of the window handles of KWindowSystem: an explicitly shared,
-- reference-counted private object. KWindowInfo/Store has the heap of these objects and the monad
-- of the methods, in which `none` is a fault: a null or dangling pointer, CFRetain of NULL, an
-- overflow of the `int` that counts references. Other undefined behaviour is no fault in the model:
-- `updateData` does not test the results of GetProcessInformation and CFStringGetCString, and can
-- read memory that is not initialised, or a text without an end; what that memory holds (`Garbage`)
-- and what the decoding makes of it are parameters, and every theorem is for all of them.
-- KWindowInfo/Object has the members of
-- `KWindowInfo::Private` (`Private()`, `setAxElement`, `setProcessSerialNumber`, `~Private`,
-- `updateData`), KWindowInfo/Handle the constructors, the destructor and `operator=`,
-- KWindowInfo/Query the accessors. KWindowInfo/Program has programs that own several handles and
-- call all of these that change the heap, in any order. Carbon, Core Foundation, the accessibility
-- API and Qt's decoding of texts are parameters (KWindowInfo/Carbon), the retains and releases a
-- log. The other files below KWindowInfo hold proofs.
-- Not modelled: the branches of Q_OS_MAC32, which no 64-bit build takes; the code under `#if 0`;
-- `extendedStrut`, `geometry` and `frameGeometry`, which return default values of library types.
--
-- IsTty (macports/bin/isatty.c) is a program of one function: `main`, over `atoi` and `isatty` of
-- the C library, with `errno` passed through.
--
-- SvnError (kde/kdesdk-kioslaves/files/svn-1.8.13/subversion-1, svn_error_codes.h and svn_error.h)
-- is the error system of the Subversion headers that port:kdesdk-kioslaves carries. SvnError/Codes
-- has every SVN_ERRDEF, in the order of the file; SvnError/Defs the categories; SvnError/Expand
-- the two expansions of the file, an enumeration and a table of descriptions. APR_OS_START_USERERR
-- of APR is a parameter. SvnError/Category and SvnError/Locks have the tests on codes,
-- SvnError/Flow the statement macros, SVN_CMD_ERR of svn_ra_svn.h among them. The functions of
-- libsvn_subr that these call are parameters (`Runtime`).
--
-- SvnDepth (svn_types.h in the same folder) has the depths and the macros between them and the
-- older flag `recurse`.
--
-- SvnCtype (svn_ctype.h in the same folder) has the character classes: masks, and tests of a table
-- of flags that libsvn_subr defines and that is a parameter here. `svn_ctype_isutf8cont` is left
-- out: it names a mask that is not defined.
--
-- PreserveLibraries (_resources/port1.0/group/preserve_runtime_libraries-1.0.tcl) is the port
-- group that lets a port which is upgraded carry the runtime libraries of its active version
-- along, in `previous/<subport>` of the library directory. PreserveLibraries/Tree has that
-- directory with its `previous/<port>`, on the disk or below a destroot: regular files and links,
-- with `file exists`, `file attributes`, `copy` and `ln -s` of Tcl. PreserveLibraries/Preserve has
-- `preserve_libraries`, from the disk and the destroot to the new destroot, with the entries of
-- the TOC file and the list `extra_preserved`; `none` is an error of a file command. What `glob`
-- finds and the registry answers are fields of `Prefix`. PreserveLibraries/BaseName has the loop
-- of `PRL::callback` that makes patterns from names, PreserveLibraries/Callback the callback
-- itself with the counter `PRL::called`, PreserveLibraries/Update has `update_preserved_libraries`
-- of other platforms than OS X, as the calls of patchelf that change libraries,
-- PreserveLibraries/Rpath its decision on the search path; there `TclLists` is how Tcl converts
-- between texts and lists. PreserveLibraries/UpdateMach has `update_preserved_libraries` of OS X,
-- as the calls of install_name_tool, in a monad that keeps the calls made before an error of otool
-- (`Mach`: `made` or `stopped`). Names have no characters that
-- are special in a pattern of `lsearch`. The other files below PreserveLibraries hold proofs.
-- Paths are followed over at most 32 links (MAXSYMLINKS); `base_loop` has fuel, and as many rounds
-- as the name has characters and one more are enough.
-- Not modelled: links out of the library directory, the text of messages and the lines at the head
-- of the TOC, and what `patchelf` and `install_name_tool` do, their errors included.
--
-- ClangSelection (_resources/port1.0/group/macports_clang_selection-1.0.tcl) chooses versions of
-- clang. ClangSelection/Lists has `macports-clang-latest` and `whitelist_macports_clang_versions`,
-- the latter over the test if a version is installed, ClangSelection/Loop
-- `blacklist_macports_clang_versions`, over `vercmp` of MacPorts and the directories `llvm-*`.
-- The calls of compiler.whitelist-append and compiler.blacklist-append, each with its one argument,
-- are their value; in macports/lib/port1.0/portutil.tcl an argument becomes one element of the
-- option, also when it is a list of names (`whitelisted` in ClangSelection/Whitelist), if the user
-- has not set the option. The loop has fuel, and as many rounds as the list has entries are enough.
-- ClangSelection/Whitelist, Blacklisted and Requests hold proofs.
--
-- PatchUpdater (_resources/port1.0/group/patch-updater-1.0.tcl) replaces the patch phase of a
-- port: each patch is applied, committed to git and saved again. PatchUpdater/Patch has
-- `patch_main`, from the options of the port to the calls that were successful and the state file;
-- `failed` is an error that ends the phase and leaves both as they are. Which call fails is an
-- oracle (`fails`), asked with the calls made before; the state file of MacPorts is the interface
-- `StateFile` with the law `IsStateFile`. TclNames has the Tcl commands that take file names
-- apart, PatchUpdater/Ignores `addIgnore` and the block `pre-patch`, over `fgrep`.
-- PatchUpdater/Attempts runs the phase again and again; the other files below PatchUpdater hold
-- proofs.
-- Not modelled: the text of messages, how long `waitforgit` waits, names that end in a slash, and
-- texts that `exec` or `fgrep` take for something else than a text to look for, a .gitignore whose
-- last line does not end, and an error when a file is opened.
--
-- LangSelect (_resources/port1.0/group/locale_select-1.0.tcl) removes translations from the
-- destroot of a port, but for the languages that a file lists. LangSelect/Tree has the files, with
-- `glob`, `file exists` and `file delete -force`, and what one loop over a folder deletes;
-- LangSelect/Loops the five loops, `check_against_basenames` and the block `post-destroot`, in
-- which `none` is the error for a file of languages that cannot be read. `join` and `string match`
-- of Tcl are fields of `Options`. LangSelect/Prune, Rules and Spec have another description of the
-- loops: each folder is a rule, and what goes is read off the files before the first loop.
-- LangSelect/Paths, Left and Outside hold proofs.
-- Not modelled: `.` and `..` in paths, links, the text of messages, a list of languages that was
-- set before the file is read, and pattern characters in the names of folders.
--
-- Numbers that the code only passes on are natural numbers; the C type `int` is the type ℤ of
-- Shared, with overflow as a fault at 32 bits. Except for the two loops with fuel, and the walk
-- along links, every function is structurally recursive.
-- Not modelled: headers of other projects that only declare functions, and the Portfiles, patches,
-- other port groups and scripts.
pub mod Shared
pub mod KWindowInfo
pub mod IsTty
pub mod PreserveLibraries
pub mod ClangSelection
pub mod TclNames
pub mod PatchUpdater
pub mod LangSelect
pub mod SvnError
pub mod SvnCtype
pub mod SvnDepth
