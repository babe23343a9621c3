-- ===== src/Cpplint/Style.antt =====
-- The checks of build_support/cpplint.py that `CheckStyle` calls, and others like them, in one child for
-- each group.
pub mod Calls
pub mod CommentText
pub mod Scopes
pub mod AltTokens
pub mod Blank
pub mod Operators
pub mod BraceSpacing
pub mod CheckMacros
pub mod TrailingSemicolon
pub mod Braces
pub mod EmptyBlock
pub mod Line
mod Tests
