-- ===== src/Scan/Closure/Reach.antt =====
-- What the closure reaches, against an inductive account of what an installation pulls in.
use mathlib.Core.List.{Memᴰ}
use mathlib.Core.Path.{subst}
use chaotic_next.Base.{
  ◌+◌, ◌≡◌, refl, sym, inl, inr, true, some, List, [], map, Text, text_eq, has, length, arith,
}
use chaotic_next.Scan.Closure.{
  DependencyRecord, clean_dep_name, push_all, walk, new_closure, total_deps, reachable_packages,
}
use chaotic_next.Scan.Closure.Loop.{has-push_all, length-push_all, length-wants, left_over-nil}
use chaotic_next.Scan.Closure.Walks.{
  Wanted, asked, pulled, IsPulled, Seen, Sound, Closed, walk-enough, walk-lem,
}

module _ (records : List DependencyRecord) (deps : List Text) where
  Sound-start : Sound records deps (push_all (map clean_dep_name deps) []) []
  Sound-start = record {
    stack_wanted = λ n h. asked (ground (arith, has-push_all n (map clean_dep_name deps) [], h));
    reached_pulled = λ p h. cc;
  }

  Closed-start : Closed records deps (push_all (map clean_dep_name deps) []) [] []
  Closed-start = record {
    asked_seen = λ n h. inr (ground (arith, has-push_all n (map clean_dep_name deps) [], h));
    answered = λ m r h a. cc;
    expanded = λ p h. cc;
  }

  -- The loop ends within the fuel it is given, so the result is what the loop returns.
  pub reachable_packages-ends :
      walk
        (new_closure records)
        (length deps + total_deps records)
        (push_all (map clean_dep_name deps) [])
        []
        []
      ≡ some (reachable_packages records deps)
  unfolding reachable_packages
  reachable_packages-ends =
      let (out, e) =
        walk-enough records (length deps + total_deps records)
          (push_all (map clean_dep_name deps) []) [] []
          (ground (
            arith,
            length-push_all (map clean_dep_name deps) [],
            length-wants deps,
            left_over-nil records,
          )) in
      rw e refl

  -- Every package reached is pulled in by an installation of the dependencies.
  pub reachable_packages-IsPulled :
      (p : Text) → has p (reachable_packages records deps) ≡ true → IsPulled records deps p
  reachable_packages-IsPulled p h =
      let (s, rest) =
        walk-lem records deps _ _ [] [] Sound-start Closed-start reachable_packages-ends in
      s.reached_pulled p h

  Seen-nil : (visited : List Text) (n : Text) → Seen [] visited n → has n visited ≡ true
  Seen-nil visited n (inl h) = h
  Seen-nil visited n (inr h) = cc

  -- Two records of one package have the same dependencies.
  abbrev pub OneList : Type 0
  OneList =
      (r s : DependencyRecord)
      → Memᴰ r records
      → Memᴰ s records
      → r.pkgname ≡ s.pkgname
      → r.deps ≡ s.deps

  Wanted-seen :
      (visited out : List Text)
      → Closed records deps [] visited out
      → OneList
      → {n : Text} → Wanted records deps n
      → has n visited ≡ true
  Wanted-seen visited out c one (asked {n} h) = Seen-nil visited n (c.asked_seen n h)
  Wanted-seen visited out c one (pulled {m} {n} r w a h) =
      let e = c.expanded r.pkgname (c.answered m r (Wanted-seen visited out c one w) a) in
      Seen-nil visited n (
        e.seen n
          (subst (λ ds. has n (map clean_dep_name ds) ≡ true) (one r e.by a.0 e.listed e.named) h))

  -- With one list of dependencies for each package name, every package pulled in is reached.
  pub reachable_packages_complete :
      OneList
      → (p : Text) → IsPulled records deps p
      → has p (reachable_packages records deps) ≡ true
  reachable_packages_complete unique p i =
      let (s, (seen, c)) =
        walk-lem records deps _ _ [] [] Sound-start Closed-start reachable_packages-ends in
      subst (λ q. has q (reachable_packages records deps) ≡ true) (sym i.named)
        (c.answered i.name i.by
          (Wanted-seen seen (reachable_packages records deps) c unique i.wanted) i.answers)
