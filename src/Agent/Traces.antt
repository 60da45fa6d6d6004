-- ===== src/Agent/Traces.antt =====
-- Traces and gathered evidence of the agent (backend/app/agent/service.py), and their growth by a step.
use code_naut.Prelude.{
  ℕ, suc, ◌+◌, ◌≤◌, ◌≡◌, ◌∙◌, String, Bool, false, ◌||◌, List, [], ◌∷◌, ◌++◌, arith, any, length,
  str_eq, str_eq_comm, if◌then◌else◌,
}
use code_naut.Agent.Model.{AgentEvidence, AgentTraceStep, AgentSettings}
use code_naut.Agent.Cases.{is_rejected}

-- The steps are numbered one after the other.
abbrev pub Numbered : ℕ → List AgentTraceStep → Type 0
Numbered k [] = Unit
Numbered k (t ∷ ts) = (t.step ≡ suc k) × Numbered (suc k) ts

-- The number of pieces of evidence of the steps.
abbrev pub total_count : List AgentTraceStep → ℕ
total_count [] = 0
total_count (t ∷ ts) = t.result_count + total_count ts

-- A step that ran its tool with these arguments.
abbrev pub is_run : String → AgentTraceStep → Bool
is_run fp t = if is_rejected t.status then false else str_eq fp t.argument_fingerprint

-- No two steps ran the same tool with the same arguments.
abbrev pub RunsOnce : List AgentTraceStep → Type 0
RunsOnce [] = Unit
RunsOnce (t ∷ ts) =
    ((if is_rejected t.status then false else any (is_run t.argument_fingerprint) ts) ≡ false)
    × RunsOnce ts

-- Evidence from answers of tools, each within the limit of one answer, and with each the sum of the
-- sizes within the limit of all.
pub data Gathered (size : List AgentEvidence → ℕ) (s : AgentSettings)
    : List AgentEvidence → ℕ → Type 0 where
  nothing : Gathered size s [] 0
  more :
      {es : List AgentEvidence} {total : ℕ} (items : List AgentEvidence)
      → Gathered size s es total
      → size items ≤ s.max_tool_result_bytes
      → total + size items ≤ s.max_total_evidence_bytes
      → Gathered size s (es ++ items) (total + size items)

pub Numbered-append :
    (k : ℕ) (ts : List AgentTraceStep) (t : AgentTraceStep)
    → Numbered k ts
    → t.step ≡ suc (k + length ts)
    → Numbered k (ts ++ (t ∷ []))
Numbered-append k [] t h e = (e ∙ omega arith, tt)
Numbered-append k (u ∷ ts) t h e = (h.0, Numbered-append (suc k) ts t h.1 (e ∙ omega arith))

pub total_count-append :
    (ts us : List AgentTraceStep) → total_count (ts ++ us) ≡ total_count ts + total_count us
total_count-append [] us = omega arith
total_count-append (t ∷ ts) us = omega (arith, total_count-append ts us)

pub any-is_run-append :
    (fp : String) (ts : List AgentTraceStep) (t : AgentTraceStep)
    → any (is_run fp) (ts ++ (t ∷ [])) ≡ (any (is_run fp) ts || is_run fp t)
any-is_run-append fp [] t = ground arith
any-is_run-append fp (u ∷ ts) t = let rest = any-is_run-append fp ts t in ground (arith, rest)

pub RunsOnce-append :
    (ts : List AgentTraceStep) (t : AgentTraceStep)
    → RunsOnce ts
    → (if is_rejected t.status then false else any (is_run t.argument_fingerprint) ts) ≡ false
    → RunsOnce (ts ++ (t ∷ []))
RunsOnce-append [] t h fresh = (ground arith, tt)
RunsOnce-append (u ∷ ts) t h fresh =
    let first = h.0 in
    let rest = any-is_run-append u.argument_fingerprint ts t in
    let comm = str_eq_comm u.argument_fingerprint t.argument_fingerprint in
    (ground (arith, first, rest, comm, fresh), RunsOnce-append ts t h.1 (ground (arith, fresh)))
