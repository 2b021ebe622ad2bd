-- ===== src/Session/Effects.antt =====
-- tracing/nvme-trace/src/ftrace.rs, lines 100 to 202: the writes of a session, in order.
use gds_traces.Text.Affix.{Text}
use gds_traces.Base.{[], ap, append-nil, append_assoc, refl, sym, ℕ, ◌++◌, ◌∙◌, ◌∷◌, ◌≡◌}
use gds_traces.Base.Outcome.{Result, ok, err, map_err}
use gds_traces.Session.Tracefs.{
  Session, SessionError, Tracefs, Write, Writes, cannot_write, continue_with, from_result, returns,
  write_file, ◌>>=◌, ◌>>◌,
}

-- A step that is to try the writes `ws`: all of them where it succeeds, and else the first ones.
abbrev pub Tried : {A : Type 0} → Writes → Writes → Result SessionError A × Writes → Type 0
Tried ws tried (ok a, now) = now ≡ tried ++ ws
Tried ws tried (err e, now) =
    (done_ones : Writes) × (rest : Writes) × (ws ≡ done_ones ++ rest) × (now ≡ tried ++ done_ones)

abbrev pub Follows : {A : Type 0} → Writes → Session A → Type 0
Follows ws m = (tried : Writes) → Tried ws tried (m tried)

Tried-behind :
    {A : Type 0} (ws vs tried now : Writes) (out : Result SessionError A × Writes)
    → now ≡ tried ++ ws
    → Tried vs now out
    → Tried (ws ++ vs) tried out
Tried-behind ws vs tried now (ok a, later) e h = h ∙ ap (λ t. t ++ vs) e ∙ append_assoc tried ws vs
Tried-behind ws vs tried now (err x, later) e (done_ones, rest, parts, h) = (
  ws ++ done_ones,
  rest,
  ap (λ t. ws ++ t) parts ∙ sym (append_assoc ws done_ones rest),
  h ∙ ap (λ t. t ++ done_ones) e ∙ append_assoc tried ws done_ones,
)

Tried-goes :
    {A B : Type 0} (ws vs tried : Writes) (out : Result SessionError A × Writes)
    (after : A → Session B)
    → Tried ws tried out
    → ((a : A) → Follows vs (after a))
    → Tried (ws ++ vs) tried (continue_with after out)
Tried-goes ws vs tried (ok a, now) after e h =
    Tried-behind ws vs tried now (after a now) e (h a now)
Tried-goes ws vs tried (err x, now) after (done_ones, rest, parts, e) h =
    (done_ones, rest ++ vs, ap (λ t. t ++ vs) parts ∙ append_assoc done_ones rest vs, e)

pub Follows-bind :
    {A B : Type 0} (ws vs : Writes) (first : Session A) (after : A → Session B)
    → Follows ws first
    → ((a : A) → Follows vs (after a))
    → Follows (ws ++ vs) (first >>= after)
Follows-bind ws vs first after hf h tried = Tried-goes ws vs tried (first tried) after (hf tried) h

pub Follows-from_result : {A : Type 0} (r : Result SessionError A) → Follows [] (from_result r)
Follows-from_result (ok a) tried = sym (append-nil tried)
Follows-from_result (err e) tried = ([], [], refl, sym (append-nil tried))

pub Follows-returns : {A : Type 0} (a : A) → Follows [] (returns a)
Follows-returns a tried = sym (append-nil tried)

abbrev pub write_of : Text → Text → Write
write_of path value = record { path = path; value = value }

module _ (fs : Tracefs) where
  pub Follows-write_file :
      (path value : Text) → Follows (write_of path value ∷ []) (write_file fs path value)
  unfolding write_file
  Follows-write_file path value tried = go (fs.write_answer tried (write_of path value))
    where
      go :
          (r : Result ℕ (Unit {0}))
          → Tried
              (write_of path value ∷ [])
              tried
              (map_err (cannot_write path) r, tried ++ write_of path value ∷ [])
      go (ok a) = refl
      go (err e) = (write_of path value ∷ [], [], refl, refl)

  -- A write, and what comes behind it.
  pub Follows-write :
      {B : Type 0} (path value : Text) (vs : Writes) (after : Session B)
      → Follows vs after
      → Follows (write_of path value ∷ vs) (write_file fs path value >> after)
  Follows-write path value vs after h =
      Follows-bind (write_of path value ∷ []) vs (write_file fs path value) (λ done. after)
        (Follows-write_file path value) (λ done. h)

  -- A step that reads only, and what comes behind it.
  pub Follows-read :
      {A B : Type 0} (r : Result SessionError A) (vs : Writes) (after : A → Session B)
      → ((a : A) → Follows vs (after a))
      → Follows vs (from_result r >>= after)
  Follows-read r vs after h = Follows-bind [] vs (from_result r) after (Follows-from_result r) h
