-- ===== src/Cpplint.antt =====
-- build_support/cpplint.py, one child for each part of it.
pub mod Categories
pub mod Report
pub mod Suppress
pub mod State
pub mod Include
pub mod Function
pub mod Comments
pub mod Cleansed
pub mod LineChecks
pub mod FunctionLengths
pub mod Constructors
pub mod Constructs
pub mod Declarations
pub mod Blocks
pub mod TemplateArguments
pub mod Nesting
pub mod Style
pub mod Headers
pub mod IncludeLine
pub mod HeaderGuard
pub mod TextInside
pub mod Inheritance
mod Tests
pub mod Expression
pub mod Reverse
