-- ===== src/Session/Failures.antt =====
-- tracing/nvme-trace/src/capture.rs, lines 80 to 100: a capture whose threads fail.
use gds_traces.Session.Order.{stop_writes}
use gds_traces.Session.Effects.{write_of}
use gds_traces.Session.Whole.{
  CpuStats, Surroundings, check_threads, finish_capture, join_errors, joined_ok, Joined, joined_err,
  joined_panic,
}
use gds_traces.Capture.Thread.{PipeError}
use gds_traces.Base.Outcome.{Result, Result-cases, err, ok}
use gds_traces.Text.Affix.{Text}
use gds_traces.Base.{
  List, map, ap, append_assoc, subst, sym, ◌∙◌, [], append-nil, inl, inr, refl, ℕ, ◌++◌, ◌∷◌, ◌≡◌,
  ◌⊎◌,
}
use gds_traces.Session.Tracefs.{
  ◌>>◌, Session, SessionError, Tracefs, Write, Writes, cannot_write, thread_failed, thread_panicked,
  write_file,
}
use gds_traces.Session.Control.{stop}

-- What the failure of a thread is reported as.
pub data IsFailure : Joined → SessionError → Type 0 where
  has_error : (e : PipeError) → IsFailure (joined_err e) (thread_failed e)
  has_panic : IsFailure joined_panic thread_panicked

module _ (fs : Tracefs) where
  -- The writes are taken, one behind the other.
  abbrev pub Accepts : Writes → Writes → Type 0
  Accepts tried [] = Unit {0}
  Accepts tried (w ∷ ws) = (fs.write_answer tried w ≡ ok tt) × Accepts (tried ++ w ∷ []) ws

  -- The first of the writes that is not taken ends them, with its error.
  abbrev pub Refuses : {A : Type 0} → Writes → Writes → Result SessionError A × Writes → Type 0
  Refuses tried ws out =
      (done_ones : Writes) × (w : Write) × (rest : Writes) × (code : ℕ) × (ws
        ≡ done_ones ++ w ∷ rest)
      × Accepts tried done_ones
      × (fs.write_answer (tried ++ done_ones) w ≡ err code)
      × (out ≡ (err (cannot_write w.path code), tried ++ (done_ones ++ w ∷ [])))

  -- Writes, and what comes of them.
  abbrev Goes : Writes → Session (Unit {0}) → Type 0
  Goes ws m =
      (tried : Writes)
      → (Accepts tried ws × (m tried ≡ (ok tt, tried ++ ws))) ⊎ Refuses tried ws (m tried)

  refused :
      {A : Type 0} (tried vs : Writes) (w : Write) (code : ℕ)
      → fs.write_answer tried w ≡ err code
      → Refuses {A = A} tried (w ∷ vs) (err (cannot_write w.path code), tried ++ w ∷ [])
  refused tried vs w code e =
      let e' : fs.write_answer (tried ++ []) w ≡ err code =
        subst (λ t. fs.write_answer t w ≡ err code) (sym (append-nil tried)) e in
      ([], w, vs, code, refl, tt, e', refl)

  Goes-write_file : (path value : Text) → Goes (write_of path value ∷ []) (write_file fs path value)
  unfolding write_file
  Goes-write_file path value tried =
      elim (Result-cases (fs.write_answer tried (write_of path value))) [
        | inl (done_now, e) ↦ inl ((e, tt), rw e refl)
        | inr (code, e) ↦ inr (rw e (refused tried [] (write_of path value) code e))
      ]

  Goes-write :
      (path value : Text) (vs : Writes) (after : Session (Unit {0}))
      → Goes vs after
      → Goes (write_of path value ∷ vs) (write_file fs path value >> after)
  unfolding write_file
  Goes-write path value vs after h tried =
      let w = write_of path value in
      elim (Result-cases (fs.write_answer tried w)) [
        | inr (code, e) ↦ inr (rw e (refused tried vs w code e))
        | inl (done_now, e) ↦ elim (h (tried ++ w ∷ [])) [
          | inl (taken_now, out) ↦
              inl
                ((e, taken_now), rw e (out ∙ ap (λ l. (ok tt, l)) (append_assoc tried (w ∷ []) vs)))
          | inr (done_ones, v, rest, code, parts, taken_now, answer, out) ↦ inr (
            w ∷ done_ones,
            v,
            rest,
            code,
            ap (λ l. w ∷ l) parts,
            (e, taken_now),
            subst (λ t. fs.write_answer t v ≡ err code) (append_assoc tried (w ∷ []) done_ones)
                answer,
            rw e (
                out
                ∙ ap (λ l. (err (cannot_write v.path code), l))
                    (append_assoc tried (w ∷ []) (done_ones ++ v ∷ []))),
          )
        ]
      ]

  stop-Goes : Goes stop_writes (stop fs)
  unfolding stop
  stop-Goes = Goes-write _ _ _ _ (Goes-write _ _ _ _ (Goes-write_file _ _))

join_errors-first :
    (before : List CpuStats) (bad : Joined) (after : List Joined) (x : SessionError)
    → IsFailure bad x
    → join_errors (map (λ s. joined_ok s) before ++ bad ∷ after) ≡ x ∷ join_errors after
unfolding join_errors
join_errors-first [] _ after _ (has_error e) = refl
join_errors-first [] _ after _ has_panic = refl
join_errors-first (s ∷ before) bad after x failure = join_errors-first before bad after x failure

-- Let some threads have returned, and the next one, in the order of the processors, have failed or
-- panicked, whatever those behind it did. Then the end of a capture, whatever the tracefs answers,
-- returns either this thread's error, with the three writes of the stop all taken, or the error of
-- the first of these writes that is not taken; it tries no write behind it and no cleanup.
pub finish_capture-first_failure :
    (fs : Tracefs) (around : Surroundings) (before : List CpuStats) (bad : Joined)
    (after : List Joined) (x : SessionError) (tried : Writes)
    → IsFailure bad x
    → let out = finish_capture fs around (map (λ s. joined_ok s) before ++ bad ∷ after) tried in
      (Accepts fs tried stop_writes × (out ≡ (err x, tried ++ stop_writes)))
      ⊎ Refuses fs tried stop_writes out
unfolding finish_capture check_threads
finish_capture-first_failure fs around before bad after x tried failure =
    elim (stop-Goes fs tried) [
      | inl (taken_now, e) ↦
          inl
            (taken_now, rw (e, finish_capture) (rw (join_errors-first before bad after x failure)))
      | inr (done_ones, w, rest, code, parts, taken_now, answer, e) ↦
          inr (done_ones, w, rest, code, parts, taken_now, answer, rw (e, finish_capture))
    ]
