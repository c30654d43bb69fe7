-- ===== src/Scan/Closure/Loop.antt =====
-- The loop over the records of a name, `visit`: what it adds to the packages reached, to the stack
-- and to the work that is left.
use mathlib.Core.List.{Memᴰ}
use mathlib.Core.List.Memᴰ
use mathlib.Core.Path.{subst}
use chaotic_next.Base.{
  ℕ, ◌+◌, ◌≤◌, ◌≡◌, refl, sym, inl, inr, ◌⊎◌, true, false, ◌||◌, List, [], ◌∷◌, ◌++◌, map, Text,
  text_eq, has, has-append, eq_self, length, if◌then◌else◌, Bool-cases, arith,
}
use chaotic_next.Scan.Closure.{
  DependencyRecord, clean_dep_name, wants_of, push_all, visit, total_deps,
}

pub has-push_all :
    (n : Text) (names stack : List Text)
    → has n (push_all names stack) ≡ (has n names || has n stack)
unfolding push_all
has-push_all n [] stack = refl
has-push_all n (name ∷ names) stack = ground (arith, has-push_all n names (name ∷ stack))

pub length-push_all :
    (names stack : List Text) → length (push_all names stack) ≡ length names + length stack
unfolding push_all
length-push_all [] stack = ground arith
length-push_all (name ∷ names) stack = ground (arith, length-push_all names (name ∷ stack))

pub length-wants : (deps : List Text) → length (map clean_dep_name deps) ≡ length deps
length-wants [] = refl
length-wants (d ∷ ds) = ground (arith, length-wants ds)

-- The dependencies of the records whose package is not reached yet.
abbrev pub left_over : List Text → List DependencyRecord → ℕ
left_over reached [] = 0
left_over reached (r ∷ rs) =
    (if has r.pkgname reached then 0 else length r.deps) + left_over reached rs

left_over-add :
    (p : Text) (reached : List Text) (rs : List DependencyRecord)
    → left_over (reached ++ p ∷ []) rs ≤ left_over reached rs
left_over-add p reached [] = ground arith
left_over-add p reached (r ∷ rs) =
    ground (arith, left_over-add p reached rs, has-append r.pkgname reached (p ∷ []))

left_over-drop :
    (r : DependencyRecord) (reached : List Text) (rs : List DependencyRecord)
    → Memᴰ r rs
    → has r.pkgname reached ≡ false
    → left_over (reached ++ r.pkgname ∷ []) rs + length r.deps ≤ left_over reached rs
left_over-drop r reached [] m h = absurd (Memᴰ.not-nil m)
left_over-drop r reached (s ∷ rs) (Memᴰ.head p) h = rw (sym p) (
    ground (
      arith,
      left_over-add r.pkgname reached rs,
      has-append r.pkgname reached (r.pkgname ∷ []),
      eq_self r.pkgname,
      h,
    ))
left_over-drop r reached (s ∷ rs) (Memᴰ.tail m) h =
    ground (arith, left_over-drop r reached rs m h, has-append s.pkgname reached (r.pkgname ∷ []))

pub left_over-nil : (rs : List DependencyRecord) → left_over [] rs ≡ total_deps rs
left_over-nil [] = refl
left_over-nil (r ∷ rs) = ground (arith, left_over-nil rs)

-- A package of the first list is reached after the loop.
pub visit-keeps :
    (p : Text) (reached stack : List Text) (rs : List DependencyRecord)
    → has p reached ≡ true
    → has p (visit reached stack rs).0 ≡ true
unfolding visit
visit-keeps p reached stack [] h = h
visit-keeps p reached stack (r ∷ rs) h = elim (Bool-cases (has r.pkgname reached)) [
  | inl old ↦ rw old (visit-keeps p reached stack rs h)
  | inr fresh ↦ rw fresh (
      visit-keeps p (reached ++ r.pkgname ∷ []) (push_all (wants_of r) stack) rs
        (ground (arith, has-append p reached (r.pkgname ∷ []), h)))
]

pub visit-keeps_stack :
    (n : Text) (reached stack : List Text) (rs : List DependencyRecord)
    → has n stack ≡ true
    → has n (visit reached stack rs).1 ≡ true
unfolding visit
visit-keeps_stack n reached stack [] h = h
visit-keeps_stack n reached stack (r ∷ rs) h = elim (Bool-cases (has r.pkgname reached)) [
  | inl old ↦ rw old (visit-keeps_stack n reached stack rs h)
  | inr fresh ↦ rw fresh (
      visit-keeps_stack n (reached ++ r.pkgname ∷ []) (push_all (wants_of r) stack) rs
        (ground (arith, has-push_all n (wants_of r) stack, h)))
]

-- Every record of the name is reached after the loop.
pub visit-reaches :
    (reached stack : List Text) (rs : List DependencyRecord) {r : DependencyRecord}
    → Memᴰ r rs
    → has r.pkgname (visit reached stack rs).0 ≡ true
unfolding visit
visit-reaches reached stack [] m = absurd (Memᴰ.not-nil m)
visit-reaches reached stack (s ∷ rs) {r} (Memᴰ.head p) = elim (Bool-cases (has s.pkgname reached)) [
  | inl old ↦ rw (p, old) (visit-keeps s.pkgname reached stack rs old)
  | inr fresh ↦
      rw (p, fresh)
        (visit-keeps s.pkgname (reached ++ s.pkgname ∷ []) (push_all (wants_of s) stack) rs
          (ground (arith, has-append s.pkgname reached (s.pkgname ∷ []), eq_self s.pkgname)))
]
visit-reaches reached stack (s ∷ rs) {r} (Memᴰ.tail m) = elim (Bool-cases (has s.pkgname reached)) [
  | inl old ↦ rw old (visit-reaches reached stack rs m)
  | inr fresh ↦
      rw fresh (visit-reaches (reached ++ s.pkgname ∷ []) (push_all (wants_of s) stack) rs m)
]

-- The record of the loop that reached a package, whose dependencies are on the stack.
pub record ReachedBy (rs : List DependencyRecord) (stack : List Text) (p : Text) : Type 0 where
  pub by : DependencyRecord
  pub listed : Memᴰ by rs
  pub named : p ≡ by.pkgname
  pub pushed : (n : Text) → has n (wants_of by) ≡ true → has n stack ≡ true

later :
    {rs : List DependencyRecord} {stack : List Text} {p : Text} (r : DependencyRecord)
    → ReachedBy rs stack p
    → ReachedBy (r ∷ rs) stack p
later r b = record { by = b.by; listed = Memᴰ.tail b.listed; named = b.named; pushed = b.pushed }

added :
    (p q : Text) (reached : List Text)
    → has p reached ≡ false
    → has p (reached ++ q ∷ []) ≡ true
    → p ≡ q
added p q reached absent now =
    sym ((text_eq.beq_iff q p).0 (ground (arith, has-append p reached (q ∷ []), absent, now)))

visit-old :
    (r : DependencyRecord) (reached stack : List Text) (rs : List DependencyRecord)
    → has r.pkgname reached ≡ true
    → visit reached stack (r ∷ rs) ≡ visit reached stack rs
unfolding visit
visit-old r reached stack rs old = rw old refl

visit-fresh :
    (r : DependencyRecord) (reached stack : List Text) (rs : List DependencyRecord)
    → has r.pkgname reached ≡ false
    → visit reached stack (r ∷ rs)
      ≡ visit (reached ++ r.pkgname ∷ []) (push_all (wants_of r) stack) rs
unfolding visit
visit-fresh r reached stack rs fresh = rw fresh refl

pub visit-ReachedBy :
    (p : Text) (reached stack : List Text) (rs : List DependencyRecord)
    → has p (visit reached stack rs).0 ≡ true
    → (has p reached ≡ true) ⊎ ReachedBy rs (visit reached stack rs).1 p
unfolding visit
visit-ReachedBy p reached stack [] h = inl h
visit-ReachedBy p reached stack (r ∷ rs) h = elim (Bool-cases (has r.pkgname reached)) [
  | inl old ↦
      let e = visit-old r reached stack rs old in
      elim (visit-ReachedBy p reached stack rs (subst (λ v. has p v.0 ≡ true) e h)) [
        | inl before ↦ inl before
        | inr b ↦ inr (subst (λ v. ReachedBy (r ∷ rs) v.1 p) (sym e) (later r b))
      ]
  | inr fresh ↦
      let e = visit-fresh r reached stack rs fresh in
      let grown = reached ++ r.pkgname ∷ [] in
      let pushed = push_all (wants_of r) stack in
      elim (visit-ReachedBy p grown pushed rs (subst (λ v. has p v.0 ≡ true) e h)) [
        | inl now ↦ elim (Bool-cases (has p reached)) [
          | inl before ↦ inl before
          | inr absent ↦ inr (
              subst (λ v. ReachedBy (r ∷ rs) v.1 p) (sym e)
                (record {
                  by = r;
                  listed = Memᴰ.head refl;
                  named = added p r.pkgname reached absent now;
                  pushed = λ n w.
                      visit-keeps_stack n grown pushed rs
                        (ground (arith, has-push_all n (wants_of r) stack, w));
                }))
        ]
        | inr b ↦ inr (subst (λ v. ReachedBy (r ∷ rs) v.1 p) (sym e) (later r b))
      ]
]

-- What is on the stack after the loop was there or is a dependency of a record of the name.
pub visit-stack :
    (n : Text) (reached stack : List Text) (rs : List DependencyRecord)
    → has n (visit reached stack rs).1 ≡ true
    → (has n stack ≡ true) ⊎ ((r : DependencyRecord) × Memᴰ r rs × (has n (wants_of r) ≡ true))
unfolding visit
visit-stack n reached stack [] h = inl h
visit-stack n reached stack (r ∷ rs) h = elim (Bool-cases (has r.pkgname reached)) [
  | inl old ↦
      let e = visit-old r reached stack rs old in
      elim (visit-stack n reached stack rs (subst (λ v. has n v.1 ≡ true) e h)) [
        | inl before ↦ inl before
        | inr (s, m, w) ↦ inr (s, Memᴰ.tail m, w)
      ]
  | inr fresh ↦
      let e = visit-fresh r reached stack rs fresh in
      elim (visit-stack n (reached ++ r.pkgname ∷ []) (push_all (wants_of r) stack) rs
        (subst (λ v. has n v.1 ≡ true) e h)) [
          | inl now ↦ elim (Bool-cases (has n stack)) [
            | inl before ↦ inl before
            | inr absent ↦
                inr (
                  r,
                  Memᴰ.head refl,
                  ground (arith, has-push_all n (wants_of r) stack, now, absent),
                )
          ]
          | inr (s, m, w) ↦ inr (s, Memᴰ.tail m, w)
        ]
]

-- The loop adds no work.
pub visit-work :
    (all : List DependencyRecord) (reached stack : List Text) (rs : List DependencyRecord)
    → ((r : DependencyRecord) → Memᴰ r rs → Memᴰ r all)
    → length (visit reached stack rs).1 + left_over (visit reached stack rs).0 all
      ≤ length stack + left_over reached all
unfolding visit
visit-work all reached stack [] inside = ground arith
visit-work all reached stack (r ∷ rs) inside = elim (Bool-cases (has r.pkgname reached)) [
  | inl old ↦ rw old (visit-work all reached stack rs (λ s m. inside s (Memᴰ.tail m)))
  | inr fresh ↦ rw fresh (
      ground (
        arith,
        visit-work all (reached ++ r.pkgname ∷ []) (push_all (wants_of r) stack) rs
            (λ s m. inside s (Memᴰ.tail m)),
        left_over-drop r reached all (inside r (Memᴰ.head refl)) fresh,
        length-push_all (wants_of r) stack,
        length-wants r.deps,
      ))
]
