-- ===== src/Lib.antt =====
-- A verification library for the Python tooling of the repository: the linter and the scripts
-- around clang-format and clang-tidy under build_support.
--
-- The program. build_support/cpplint.py reads a C++ file as a list of lines. It first learns which
-- errors are suppressed (NOLINT comments, marks of C and kernel files), then removes comments, and
-- each check looks at the lines that are left and calls an error handler. The handler `Error` asks
-- the suppressions, the verbosity and the filters whether the error is printed, counts it, and
-- writes it in the output format. Some checks keep a state from line to line: the headers included
-- so far, the function at hand, the blocks that are open. build_support/run_clang_format.py walks
-- over directories and compares each file with what clang-format makes of it.
-- build_support/run_clang_tidy.py runs clang-tidy over the files of a compilation database, in
-- several threads that share a queue.
--
-- How it is modelled. A line is a list of code points (`Text`). Module variables and objects are
-- records, and what changes one returns the new one. A check yields the list of its calls of the
-- error handler, in order (`Report`), with its calls of `ParseNolintSuppressions` between them where
-- it makes any (`Action`); an exception or a failed assertion is `none` or the message. A check that
-- looks at one line takes the line, where the source takes all lines and a number.
--
-- The files.
--   Base             shared names, Boolean tests, lists measured by native numbers, text
--   PyText           the methods of `str` that the tooling calls
--   Regex            the part of Python's `re` that it uses: a backtracking matcher with groups
--   PyOs             os.path and fnmatch
--   Cpplint          build_support/cpplint.py, one child for each part:
--     Categories     `_ERROR_CATEGORIES` and the default lists
--     Report         a call of the error handler
--     Suppress       `ParseNolintSuppressions`, `ProcessGlobalSuppresions`,
--                    `IsErrorSuppressedByNolint`
--     State          `_CppLintState`, `_ShouldPrintError`, `Error`
--     Include        `_IncludeState`
--     Function       `_FunctionState`
--     Comments       `RemoveMultiLineComments`, `CleanseComments`, `IsCppString`
--     Cleansed       `CleanseRawStrings`, `_CollapseStrings`, `CleansedLines`
--     LineChecks     `CheckForCopyright`, `CheckForNewlineAtEOF`, `CheckPosixThreading` and other
--                    checks of one line, `GetPreviousNonBlankLine`
--     Blocks         `_BlockInfo`, `_ExternCInfo`, `_ClassInfo`, `_NamespaceInfo`
--     TemplateArguments `InTemplateArgumentList`
--     Nesting        `NestingState`
--     Constructors, Constructs `CheckForNonStandardConstructs`
--     Headers        the extensions of files, `_DropCommonSuffixes`, `_ClassifyInclude`
--     IncludeLine    `CheckIncludeLine`, over the state of Include
--     HeaderGuard    `PathSplitToList`, `GetHeaderGuardCPPVariable`, `CheckForHeaderGuard`
--     Style          the checks of spacing and of style: calls, comments, blank lines, operators,
--                    braces, empty blocks, alternative tokens, CHECK macros, semicolons, sections of
--                    classes, and `CheckStyle`, which calls them
--     Inheritance    `CheckRedundantVirtual`, `CheckRedundantOverrideOrFinal`, `FlagCxx11Features`
--     TextInside     `_GetTextInside`
--     FunctionLengths `CheckForFunctionLengths`
--     Declarations   `IsMacroDefinition`, `IsDerivedFunction`, `FlagCxx14Features` and the like
--     Expression     `FindEndOfExpressionInLine`, `CloseExpression`
--     Reverse        `FindStartOfExpressionInLine`, `ReverseCloseExpression`
--   ClangTidy        build_support/run_clang_tidy.py and run_clang_tidy_extra.py: the command line
--                    for a file, and the main thread with its workers as a step relation, in any
--                    order; clang-tidy and the expression for file names are parameters
--   ClangFormat      build_support/run_clang_format.py; the file system, clang-format and difflib
--                    are the record `Tools`, whose operations may fail; an exception ends the
--                    script with status 1
--
-- Bounds and fuel. The loops that search lines run on fuel, one round for each line, and every round
-- passes a line. The loops that take strings out of a line have a round for each character and one
-- more, and each round shortens what is left; so have those over the namespaces of a line and the
-- components of a path, and that over the operands of a CHECK has one for each character. What these
-- would return if their rounds ran out is an argument. The scan for a template argument has a round for each character
-- and each line of the file. A star of a regular expression stops when a round reads
-- nothing, as Python's does, and has one round for each character that is left. The level of a long
-- function is found by doubling, with as many rounds as the function has lines.
--
-- What is simplified. Of a block that was on top of the stack its value is kept, not its identity.
-- The names of files in the repository, which the linter finds in the file system, are parameters, and
-- so is the width of a line, which it takes from `unicodedata`. `\w`, `\d`, `\b` and `lower` know ASCII
-- only; `\s` and `strip` know all the white space of Unicode. `math.log` has no rounding errors.
-- Numbers such as the verbosity are not negative.
--
-- Not modelled: the checks of the language, of casts and of what a file should include, the reading
-- of files, the command line and the configuration files of cpplint.py; the export and the
-- application of fixes by run_clang_tidy.py; the database itself, which is C++.
pub mod Base
pub mod PyText
pub mod Regex
pub mod PyOs
pub mod ClangFormat
pub mod ClangTidy
pub mod Cpplint
