-- ===== src/Lineage/Transition/Done.antt =====
-- graph/storage.rs: programs that complete, and what holds of every directory on their way.
use ffhn.Base.{◌≡◌, refl, sym, subst, All, All-append}
use ffhn.Base.Errors.{CoreResult, ok}
use mathlib.Core.Path.{ap₂}
use ffhn.Lineage.Disk.{Run, Program, resume, lift, ◌>>=◌}

module _ {D : Type 0} where
  -- The program returns `a` and leaves `e`, and `P` holds of every directory that it leaves on the disk.
  abbrev pub Done : {A : Type 0} → (D → Type 0) → Program D A → D → A → D → Type 0
  Done P program d a e =
      ((program d).result ≡ ok a) × ((program d).final ≡ e) × All P (program d).visited

  resumed :
      {A B : Type 0} (P : D → Type 0) (next : A → Program D B) (r : Run D A) (a : A) (e f : D)
      (b : B)
      → r.result ≡ ok a
      → r.final ≡ e
      → All P r.visited
      → Done P (next a) e b f
      → ((resume r.visited r.final r.result next).result ≡ ok b)
        × ((resume r.visited r.final r.result next).final ≡ f)
        × All P (resume r.visited r.final r.result next).visited
  resumed P next r a e f b h₁ h₂ all (k₁, k₂, rest) =
      let one : resume r.visited e (ok a) next ≡ resume r.visited r.final r.result next =
        ap₂ (λ x y. resume r.visited x y next) (sym h₂) (sym h₁) in
      subst (λ run. (run.result ≡ ok b) × (run.final ≡ f) × All P run.visited) one
        (k₁, k₂, All-append P r.visited (next a e).visited all rest)

  pub Done-then :
      {A B : Type 0} (P : D → Type 0) (program : Program D A) (next : A → Program D B) {a : A}
      {b : B} {d e f : D}
      → Done P program d a e
      → Done P (next a) e b f
      → Done P (program >>= next) d b f
  Done-then P program next {a} {b} {d} {e} {f} (h₁, h₂, all) k =
      resumed P next (program d) a e f b h₁ h₂ all k

  pub lift-Done :
      {A : Type 0} (P : D → Type 0) (c : CoreResult A) {a : A} {d : D}
      → c ≡ ok a
      → Done P (lift c) d a d
  lift-Done P c {a} {d} h = subst (λ r. Done P (lift r) d a d) (sym h) (refl, refl, tt)
