-- ===== src/Cpplint/Headers/Tests.antt =====
-- Runs of the classification of headers: the examples of `_ClassifyInclude` and `_DropCommonSuffixes`.
use cmu.Base.{◌≡◌, refl, true, false, [], text}
use cmu.Cpplint.Include.{c_sys, cpp_sys, likely_my, possible_my, other}
use cmu.Cpplint.Headers.{Extensions, classify_include, drop_common_suffixes}

abbrev defaults : Extensions
defaults = record { hpp_headers = []; valid_extensions = [] }

test_c : classify_include defaults (text "foo/foo.cc") (text "stdio.h") true ≡ c_sys
unfolding classify_include
test_c = refl

test_cpp : classify_include defaults (text "foo/foo.cc") (text "string") true ≡ cpp_sys
unfolding classify_include
test_cpp = refl

test_likely : classify_include defaults (text "foo/foo.cc") (text "foo/foo.h") false ≡ likely_my
unfolding classify_include
test_likely = refl

test_possible :
    classify_include defaults
      (text "foo/foo_unknown_extension.cc")
      (text "bar/foo_other_ext.h")
      false
    ≡ possible_my
unfolding classify_include
test_possible = refl

test_other : classify_include defaults (text "foo/foo.cc") (text "foo/bar.h") false ≡ other
unfolding classify_include
test_other = refl

test_inl : drop_common_suffixes defaults (text "foo/foo-inl.h") ≡ text "foo/foo"
unfolding drop_common_suffixes
test_inl = refl

test_unusual :
    drop_common_suffixes defaults (text "foo/foo_unusualinternal.h")
    ≡ text "foo/foo_unusualinternal"
unfolding drop_common_suffixes
test_unusual = refl
