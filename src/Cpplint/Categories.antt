-- ===== src/Cpplint/Categories.antt =====
-- The category lists at the top of build_support/cpplint.py.
use cmu.Base.{List, [], ◌∷◌, String, Text, text}

abbrev texts : List String → List Text
texts [] = []
texts (s ∷ ss) = text s ∷ texts ss

-- `_ERROR_CATEGORIES`
unfoldable pub error_categories : List Text
error_categories = texts (
    "build/class" ∷ "build/c++11" ∷ "build/c++14" ∷ "build/c++tr1" ∷ "build/deprecated"
    ∷ "build/endif_comment" ∷ "build/explicit_make_pair" ∷ "build/forward_decl"
    ∷ "build/header_guard" ∷ "build/include" ∷ "build/include_subdir" ∷ "build/include_alpha"
    ∷ "build/include_order" ∷ "build/include_what_you_use" ∷ "build/namespaces_literals"
    ∷ "build/namespaces" ∷ "build/printf_format" ∷ "build/storage_class" ∷ "legal/copyright"
    ∷ "readability/alt_tokens" ∷ "readability/braces" ∷ "readability/casting" ∷ "readability/check"
    ∷ "readability/constructors" ∷ "readability/fn_size" ∷ "readability/inheritance"
    ∷ "readability/multiline_comment" ∷ "readability/multiline_string" ∷ "readability/namespace"
    ∷ "readability/nolint" ∷ "readability/nul" ∷ "readability/strings" ∷ "readability/todo"
    ∷ "readability/utf8" ∷ "runtime/arrays" ∷ "runtime/casting" ∷ "runtime/explicit" ∷ "runtime/int"
    ∷ "runtime/init" ∷ "runtime/invalid_increment" ∷ "runtime/member_string_references"
    ∷ "runtime/memset" ∷ "runtime/indentation_namespace" ∷ "runtime/operator" ∷ "runtime/printf"
    ∷ "runtime/printf_format" ∷ "runtime/references" ∷ "runtime/string" ∷ "runtime/threadsafe_fn"
    ∷ "runtime/vlog" ∷ "whitespace/blank_line" ∷ "whitespace/braces" ∷ "whitespace/comma"
    ∷ "whitespace/comments" ∷ "whitespace/empty_conditional_body" ∷ "whitespace/empty_if_body"
    ∷ "whitespace/empty_loop_body" ∷ "whitespace/end_of_line" ∷ "whitespace/ending_newline"
    ∷ "whitespace/forcolon" ∷ "whitespace/indent" ∷ "whitespace/line_length" ∷ "whitespace/newline"
    ∷ "whitespace/operators" ∷ "whitespace/parens" ∷ "whitespace/semicolon" ∷ "whitespace/tab"
    ∷ "whitespace/todo" ∷ [])

-- `_LEGACY_ERROR_CATEGORIES`
abbrev pub legacy_error_categories : List Text
legacy_error_categories = texts ("readability/streams" ∷ "readability/function" ∷ [])

-- `_DEFAULT_FILTERS`
abbrev pub default_filters : List Text
default_filters = texts ("-build/include_alpha" ∷ [])

-- `_DEFAULT_C_SUPPRESSED_CATEGORIES`
abbrev pub default_c_suppressed_categories : List Text
default_c_suppressed_categories = texts ("readability/casting" ∷ [])

-- `_DEFAULT_KERNEL_SUPPRESSED_CATEGORIES`
abbrev pub default_kernel_suppressed_categories : List Text
default_kernel_suppressed_categories = texts ("whitespace/tab" ∷ [])
