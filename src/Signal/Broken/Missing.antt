-- ===== src/Signal/Broken/Missing.antt =====
-- When a needed soname counts as missing.
use mathlib.Core.List.Memᴰ
use chaotic_next.Base.{
  ◌≡◌, sym, ◌∙◌, true, false, not, ◌||◌, List, map, Text, text_eq, ◌==◌, has, or_else, starts_with,
  codes, ◌++◌, Within, any-Within, has-keep, has-dedupe, has-mem, mem-has, arith,
}
use chaotic_next.Signal.Paths.{soname_basename}
use chaotic_next.Signal.Graph.{base_system_sonames}
use chaotic_next.Signal.Broken.{
  Options, is_soname_satisfied, unversioned_resolvable, soname_version_prefix, is_resolved,
  shipped_by, missing_sonames,
}

unversioned_resolvable-Within :
    (soname : Text) (p q : List Text)
    → Within p q
    → unversioned_resolvable soname p ≡ true
    → unversioned_resolvable soname q ≡ true
unfolding unversioned_resolvable
unversioned_resolvable-Within soname p q h t = ground (
  arith,
  any-Within (λ s. s == soname || starts_with (soname_version_prefix soname ++ codes ".") s) p q h,
)

is_resolved-Within :
    (shipped p q base : List Text) (soname : Text)
    → Within p q
    → is_resolved shipped p base soname ≡ true
    → is_resolved shipped q base soname ≡ true
unfolding is_resolved is_soname_satisfied
is_resolved-Within shipped p q base soname h t =
    ground (arith, h soname, h (soname_basename soname), unversioned_resolvable-Within soname p q h)

-- More providers break nothing: with a larger set of provided sonames, each soname that
-- `findBrokenDependencies` reports was reported with the smaller set too.
pub missing_sonames-Within :
    (opts : Options) (q : List Text)
    → Within opts.provided_sonames q
    → Within (missing_sonames (record opts { provided_sonames = q })) (missing_sonames opts)
unfolding missing_sonames
missing_sonames-Within opts q h soname t =
    let base = or_else opts.base_sonames base_system_sonames in
    ground (
      arith,
      has-keep (λ s. not (is_resolved (shipped_by opts.files) opts.provided_sonames base s)) soname
          opts.needed_sonames,
      has-keep (λ s. not (is_resolved (shipped_by opts.files) q base s)) soname opts.needed_sonames,
      is_resolved-Within (shipped_by opts.files) opts.provided_sonames q base soname h,
    )

-- A package never breaks itself: a needed soname with the base name of a shipped file is not
-- reported.
pub missing_sonames-shipped :
    (opts : Options) (file soname : Text)
    → has file opts.files ≡ true
    → soname_basename file ≡ soname_basename soname
    → has soname (missing_sonames opts) ≡ false
unfolding missing_sonames is_resolved is_soname_satisfied
missing_sonames-shipped opts file soname m same =
    let base = or_else opts.base_sonames base_system_sonames in
    let shipped : has (soname_basename soname) (shipped_by opts.files) ≡ true =
      has-dedupe (soname_basename soname) (map soname_basename opts.files)
      ∙ mem-has (soname_basename soname) (map soname_basename opts.files)
          (Memᴰ.cast (sym same) (Memᴰ.map soname_basename (has-mem file opts.files m))) in
    ground (
      arith,
      has-keep (λ s. not (is_resolved (shipped_by opts.files) opts.provided_sonames base s)) soname
          opts.needed_sonames,
    )
