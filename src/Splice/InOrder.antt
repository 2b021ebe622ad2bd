-- ===== src/Splice/InOrder.antt =====
-- tracing/nvme-trace/src/lib.rs, lines 388 to 408 and 452 to 475: a merge of streams that are in
-- order.
use gds_traces.Reader.Loop.{Stream}
use gds_traces.Order.Laws.{NotAfter}
use gds_traces.Format.Types.{Header, TraceRecord}
use gds_traces.Splice.Update.{get_or-set_at_same, get_or-set_at_other, set_at}
use gds_traces.Format.Layout.{header_at}
use gds_traces.Base.{
  ap, arith, length, ◌<◌, ==→eq, ==→ne, All, Bool-cases, List, [], get_or, inl, inr, map, subst,
  suc, sym, zero, ℕ, ◌==◌, ◌∙◌, ◌∷◌, ◌≡◌,
}
use gds_traces.Splice.Merges.{HeadsAre, IsLeast, Merges, all_merged, merges}

-- No record comes behind the next one.
abbrev pub InOrder : List (List ℕ) → Type 0
InOrder [] = Unit
InOrder (a ∷ []) = Unit
InOrder (a ∷ b ∷ recs) = NotAfter (header_at a) (header_at b) × InOrder (b ∷ recs)

-- A stream in order, whose headers are all as `P` says.
abbrev pub IsInOrder : (Header → Type 0) → Stream → Type 0
IsInOrder P ps = All (λ p. P (header_at p.0)) ps × InOrder (map (λ p. p.0) ps)

-- The record does not come behind the first of the others.
Precedes : List ℕ → List (List ℕ) → Type 0
Precedes a [] = Unit
Precedes a (b ∷ recs) = NotAfter (header_at a) (header_at b)

InOrder-cons :
    (a : List ℕ) (recs : List (List ℕ)) → Precedes a recs → InOrder recs → InOrder (a ∷ recs)
unfolding Precedes
InOrder-cons a [] h hs = tt
InOrder-cons a (b ∷ recs) h hs = (h, hs)

InOrder-tail : (a : List ℕ) (recs : List (List ℕ)) → InOrder (a ∷ recs) → InOrder recs
InOrder-tail a [] h = tt
InOrder-tail a (b ∷ recs) (h, hs) = hs

get_or-range :
    (pss : List Stream) (i : ℕ) (p : List ℕ × TraceRecord) (ps : Stream)
    → get_or pss i [] ≡ p ∷ ps
    → i < length pss
get_or-range [] i p ps e = cc
get_or-range (qs ∷ pss) zero p ps e = omega arith
get_or-range (qs ∷ pss) (suc i) p ps e = omega (arith, get_or-range pss i p ps e)

module _ (P : Header → Type 0) where
  IsInOrder-get :
      (pss : List Stream) (i : ℕ) → All (IsInOrder P) pss → IsInOrder P (get_or pss i [])
  IsInOrder-get [] i h = (tt, tt)
  IsInOrder-get (ps ∷ pss) zero (h, hs) = h
  IsInOrder-get (ps ∷ pss) (suc i) (h, hs) = IsInOrder-get pss i hs

  IsInOrder-set :
      (i : ℕ) (ps : Stream) (pss : List Stream)
      → IsInOrder P ps
      → All (IsInOrder P) pss
      → All (IsInOrder P) (set_at i ps pss)
  unfolding set_at
  IsInOrder-set i ps [] h hs = tt
  IsInOrder-set zero ps (qs ∷ pss) h (k, hs) = (h, hs)
  IsInOrder-set (suc i) ps (qs ∷ pss) h (k, hs) = (k, IsInOrder-set i ps pss h hs)

  HeadsAre-all : (pss : List Stream) → All (IsInOrder P) pss → HeadsAre P pss
  HeadsAre-all pss h j b u us e = (subst (IsInOrder P) e (IsInOrder-get pss j h)).0.0

  Merges-Precedes :
      (a : List ℕ) (pss : List Stream) (recs : List (List ℕ))
      → Merges P pss recs
      → IsLeast pss a
      → Precedes a recs
  unfolding Precedes
  Merges-Precedes a pss [] w least = tt
  Merges-Precedes a pss (b ∷ recs) (merges i _ t ps _ e l w) least = least i b t ps e

  -- Behind the first record of a stream in order, the least one, it stays so.
  IsLeast-set :
      (pss : List Stream) (i : ℕ) (a : List ℕ) (t : TraceRecord) (ps : Stream)
      → get_or pss i [] ≡ (a, t) ∷ ps
      → IsInOrder P ((a, t) ∷ ps)
      → IsLeast pss a
      → IsLeast (set_at i ps pss) a
  IsLeast-set pss i a t ps e (alike, order) least j b u us at = elim (Bool-cases (i == j)) [
    | inl same ↦
        let here = get_or-set_at_same i ps [] pss (get_or-range pss i (a, t) ps e) in
        let at' : get_or (set_at i ps pss) i [] ≡ (b, u) ∷ us =
          ap (λ k. get_or (set_at i ps pss) k []) (==→eq i j same) ∙ at in
        (subst (λ qs. InOrder (a ∷ map (λ p. p.0) qs)) (sym here ∙ at') order).0
    | inr differs ↦
        least j b u us (sym (get_or-set_at_other i j ps [] pss (==→ne i j differs)) ∙ at)
  ]

  pub Merges-InOrder :
      (pss : List Stream) (recs : List (List ℕ))
      → Merges P pss recs
      → All (IsInOrder P) pss
      → InOrder recs
  Merges-InOrder pss _ (all_merged e) h = tt
  Merges-InOrder pss _ (merges i a t ps recs e l w) h =
      let (alike, order) = subst (IsInOrder P) e (IsInOrder-get pss i h) in
      let least = IsLeast-set pss i a t ps e (alike, order) (l (HeadsAre-all pss h)) in
      InOrder-cons a recs (Merges-Precedes a (set_at i ps pss) recs w least) (
        Merges-InOrder (set_at i ps pss) recs w
          (IsInOrder-set i ps pss (alike.1, InOrder-tail a (map (λ p. p.0) ps) order) h))
