-- ===== src/Broker/Request/Cleared.antt =====
-- When a request reaches STS.
use taskgrant.Prelude.{
  ℕ, ◌+◌, ◌≤◌, ◌≡◌, refl, ap, ◌∙◌, ◌⊎◌, inl, inr, Bool, true, false, not, ◌&&◌, Option, List, ◌++◌,
  ◌==◌, Bytes, same, same→eq, is_empty, length, In, arith, Bool-cases, Option-cases,
}
use taskgrant.Prelude.Maps.{get}
use taskgrant.Domain.Codes.{DenialCode}
use taskgrant.Domain.State.{State}
use taskgrant.Mint.{AssumeRoleInput}
use taskgrant.Store.Idempotency.{put_idempotency_key}
use taskgrant.Broker.{
  SynthVerdict, SynthResult, SynthReply, GrantRequest, ProfileConfig, Deps, Entry, Broker, View,
}
use taskgrant.Broker.Entries.{
  set_state_locked, put_entry, new_entry, append_record, Resolved, resolve_profile,
}
use taskgrant.Broker.Minting.Verified.{IsVerified}
use taskgrant.Broker.Views.Once.{refresh_entry-IsRefreshed}
use taskgrant.Broker.Views.Logged.{get_grant}
use taskgrant.Broker.Pipeline.{deny_synth, clarify, record_error}
use taskgrant.Broker.Decide.Cleared.{
  deny_entry-calls, Reply-cases, IsCleared, approved_entry, checks, routed_entry, routed_broker,
  verify_and_decide-IsCleared,
}
use taskgrant.Broker.Request.{
  is_continued, entry_for, by_verdict, after_synthesis, synth_request, synthesize_for, replay,
  process, peek_retry_token, retry_target, retry_grant, request_grant, idempotency_window,
}

SynthReply-cases :
    (r : SynthReply)
    → (r ≡ SynthReply.invalid_retry_token)
      ⊎ (r ≡ SynthReply.synthesis_failed)
      ⊎ ((res : SynthResult) × (trace : Option (List Bytes)) × (r
            ≡ SynthReply.synthesized res trace))
SynthReply-cases SynthReply.invalid_retry_token = inl refl
SynthReply-cases SynthReply.synthesis_failed = inr (inl refl)
SynthReply-cases (SynthReply.synthesized res trace) = inr (inr (res, trace, refl))

Resolved-cases :
    (r : Resolved)
    → ((code : DenialCode) × (r ≡ Resolved.not_permitted code))
      ⊎ ((name : Bytes) × (p : ProfileConfig) × (r ≡ Resolved.resolved name p))
Resolved-cases (Resolved.not_permitted code) = inl (code, refl)
Resolved-cases (Resolved.resolved name p) = inr (name, p, refl)

get_grant-calls :
    (deps : Deps) (agent g : Bytes) (now : ℕ) (b : Broker)
    → (get_grant deps agent g now b).1.calls ≡ b.calls
unfolding get_grant
get_grant-calls deps agent g now b = elim (Bool-cases (deps.parse_strict g)) [
  | inr n ↦ rw (n, get_grant) refl
  | inl y ↦ elim (Option-cases (get same g b.grants)) [
    | inl q ↦ rw (y, q, get_grant) refl
    | inr (e, q) ↦ elim (Bool-cases (same e.agent_id agent)) [
      | inr n ↦ rw (y, q, n, get_grant) refl
      | inl own ↦
          let (id, grants, kept, calls) = refresh_entry-IsRefreshed now e b in
          rw (y, q, own, get_grant) calls
    ]
  ]
]

entry_for-calls :
    (is_retry : Bool) (g agent name : Bytes) (req : GrantRequest) (now : ℕ) (b : Broker)
    → ((entry_for is_retry g agent name req now b).1.calls ≡ b.calls)
      × ((entry_for is_retry g agent name req now b).0.agent_id ≡ agent)
      × ((entry_for is_retry g agent name req now b).0.profile ≡ name)
unfolding entry_for put_entry new_entry set_state_locked
entry_for-calls false g agent name req now b = (refl, refl, refl)
entry_for-calls true g agent name req now b = elim (Option-cases (get same g b.grants)) [
  | inl q ↦ rw (q, entry_for) (refl, refl, refl)
  | inr (prev, q) ↦ elim (Bool-cases (is_continued agent prev)) [
    | inr n ↦ rw (q, n, entry_for) (refl, refl, refl)
    | inl y ↦ rw (q, y, entry_for) (refl, same→eq prev.agent_id agent (ground arith), refl)
  ]
]

module _ (deps : Deps) (now : ℕ) (agent : Bytes) (req : GrantRequest) where
  -- What stands behind the calls of a request.
  pub record IsMinted (new : List AssumeRoleInput) : Type 0 where
    pub name : Bytes
    pub profile : ProfileConfig
    pub resolved : resolve_profile deps.config agent req.profile ≡ Resolved.resolved name profile
    pub entry : Entry
    pub broker : Broker
    pub res : SynthResult
    pub trace : Option (List Bytes)
    pub owned : entry.agent_id ≡ agent
    pub asked : Entry
    pub asked_for : asked.agent_id ≡ agent
    pub answered :
        deps.synthesize (synth_request deps now name req asked) ≡ SynthReply.synthesized res trace
    pub profiled : entry.profile ≡ name
    pub synthesized : entry.result ≡ res
    pub has_policy : is_empty res.policy_json ≡ false
    pub cleared :
        IsCleared deps now res trace
          (checks deps now res trace profile entry broker).0
          (routed_entry deps now res trace profile entry broker)
    pub at_most_two : length new ≤ 2
    pub verified :
        (i : AssumeRoleInput)
        → In i new
        → IsVerified deps
            (approved_entry deps now (routed_entry deps now res trace profile entry broker))
            (routed_broker deps now res trace profile entry broker)
            i

  abbrev pub IsGuarded : Broker → Option View × Broker → Type 0
  IsGuarded b r =
      (r.1.calls ≡ b.calls)
      ⊎ ((new : List AssumeRoleInput) × (r.1.calls ≡ new ++ b.calls) × IsMinted new)

  by_verdict-IsGuarded :
      (name : Bytes) (p : ProfileConfig) (v : SynthVerdict) (res : SynthResult)
      (trace : Option (List Bytes)) (asked e : Entry) (b : Broker)
      → resolve_profile deps.config agent req.profile ≡ Resolved.resolved name p
      → asked.agent_id ≡ agent
      → deps.synthesize (synth_request deps now name req asked) ≡ SynthReply.synthesized res trace
      → e.agent_id ≡ agent
      → e.profile ≡ name
      → e.result ≡ res
      → IsGuarded b (by_verdict deps now v res trace p e b)
  unfolding by_verdict deny_synth clarify record_error append_record
  by_verdict-IsGuarded name p SynthVerdict.deny res trace asked e b h for answer own prof r =
      inl (deny_entry-calls now _ e b)
  by_verdict-IsGuarded name p SynthVerdict.needs_clarification res trace asked e b h for answer own
        prof r =
      inl refl
  by_verdict-IsGuarded name p (SynthVerdict.other s) res trace asked e b h for answer own prof r =
      inl refl
  by_verdict-IsGuarded name p _ res trace asked e b h for answer own prof r =
      elim (verify_and_decide-IsCleared deps now res trace p e b) [
        | inl c ↦ inl c
        | inr (has, cleared, (new, eq, le, ok)) ↦ inr (
          new,
          eq,
          record {
            name = name;
            profile = p;
            resolved = h;
            entry = e;
            broker = b;
            res = res;
            trace = trace;
            owned = own;
            asked = asked;
            asked_for = for;
            answered = answer;
            profiled = prof;
            synthesized = r;
            has_policy = has;
            cleared = cleared;
            at_most_two = le;
            verified = ok;
          },
        )
      ]

  -- Calls that stay the same on the way do not matter.
  IsMinted-from :
      (b0 b : Broker) (r : Option View × Broker)
      → b.calls ≡ b0.calls
      → IsGuarded b r
      → IsGuarded b0 r
  IsMinted-from b0 b r e (inl c) = inl (c ∙ e)
  IsMinted-from b0 b r e (inr (new, eq, m)) = inr (new, eq ∙ ap (λ cs. new ++ cs) e, m)

  synthesize_for-IsGuarded :
      (is_retry : Bool) (g name : Bytes) (p : ProfileConfig) (b : Broker)
      → resolve_profile deps.config agent req.profile ≡ Resolved.resolved name p
      → IsGuarded b (synthesize_for deps now is_retry g agent name p req b)
  unfolding synthesize_for after_synthesis record_error append_record set_state_locked
  synthesize_for-IsGuarded is_retry g name p b h =
      let (calls, own, prof) = entry_for-calls is_retry g agent name req now b in
      let (e, b') = entry_for is_retry g agent name req now b in
      elim (SynthReply-cases (deps.synthesize (synth_request deps now name req e))) [
        | inl q ↦ inl (rw (q, synthesize_for, after_synthesis) calls)
        | inr (inl q) ↦ inl (rw (q, synthesize_for, after_synthesis, record_error) calls)
        | inr (inr (res, trace, q)) ↦
            let e1 = record (set_state_locked State.synthesized e) { result = res } in
            rw (q, synthesize_for, after_synthesis)
              (IsMinted-from b b' (by_verdict deps now res.verdict res trace p e1 b') calls
                (by_verdict-IsGuarded name p res.verdict res trace e e1 b' h own q own prof refl))
      ]

  replay-IsGuarded :
      (g name : Bytes) (p : ProfileConfig) (b : Broker)
      → resolve_profile deps.config agent req.profile ≡ Resolved.resolved name p
      → IsGuarded b (replay deps now g agent name p req b)
  unfolding replay
  replay-IsGuarded g name p b h =
      let (reply, keys) =
        put_idempotency_key agent req.idempotency_key g now (now + idempotency_window)
          b.idempotency_keys in
      let b1 = record b { idempotency_keys = keys } in
      elim (Reply-cases reply) [
        | inl (x, q) ↦ rw (q, replay) (inl refl)
        | inr ((stored, created), q) ↦ elim (Bool-cases (not created && not (same stored g))) [
          | inr n ↦ rw (q, n, replay) (synthesize_for-IsGuarded false g name p b1 h)
          | inl y ↦ elim (Option-cases (get_grant deps agent stored now b1).0) [
            | inr (v, s) ↦ rw (q, y, replay, s) (inl (get_grant-calls deps agent stored now b1))
            | inl s ↦
                let b2 = (get_grant deps agent stored now b1).1 in
                rw (q, y, s, replay)
                  (IsMinted-from b b2 (synthesize_for deps now false g agent name p req b2)
                    (get_grant-calls deps agent stored now b1)
                    (synthesize_for-IsGuarded false g name p b2 h))
          ]
        ]
      ]

  process-IsGuarded :
      (is_retry : Bool) (g : Bytes) (b : Broker)
      → IsGuarded b (process deps now is_retry g agent req b)
  unfolding process put_entry
  process-IsGuarded is_retry g b =
      elim (Resolved-cases (resolve_profile deps.config agent req.profile)) [
        | inl (code, q) ↦ inl (
            rw (q, process)
              (deny_entry-calls now code (new_entry g agent req.profile req now)
                (put_entry (new_entry g agent req.profile req now) b)))
        | inr (name, p, q) ↦
            elim (Bool-cases (not (is_empty req.idempotency_key) && not is_retry)) [
              | inl y ↦ rw (q, y, process) (replay-IsGuarded g name p b q)
              | inr n ↦ rw (q, n, process) (synthesize_for-IsGuarded is_retry g name p b q)
            ]
      ]

  -- A request of an agent, a retry or a replay included, reaches STS only for a profile that the
  -- agent may use, with an entry of this agent and profile, and with a result that the synthesizer
  -- answered to this request in the name of this agent and profile. That result is cleared: its policy
  -- is not empty, the guardrails did not fail it, where the broker has a catalog its actions belong to
  -- capabilities that the result declares, and nothing asked for an approval. The request then makes
  -- two calls at most, each with the policy of that result, or with one that the synthesizer gave back
  -- when asked for at most 80 percent of that policy's characters; of such a policy it holds only that
  -- the guardrails did not fail it.
  pub request_grant-IsGuarded :
      (fresh : Bytes) (b : Broker) → IsGuarded b (request_grant deps now fresh agent req b)
  unfolding request_grant retry_grant
  request_grant-IsGuarded fresh b = elim (Bool-cases (is_empty req.retry_token)) [
    | inl y ↦ rw (y, request_grant) (process-IsGuarded false fresh b)
    | inr n ↦
        elim (Option-cases (peek_retry_token deps.decode_token deps.parse_strict req.retry_token)) [
          | inl q ↦ inl (rw (n, q, request_grant) refl)
          | inr ((g, round), q) ↦ elim (Option-cases (retry_target g b)) [
            | inl t ↦ inl (rw (n, q, t, request_grant, retry_grant) refl)
            | inr (t, eq) ↦ elim (Bool-cases (same t.owner agent)) [
              | inr o ↦ inl (rw (n, q, eq, o, request_grant, retry_grant) refl)
              | inl o ↦ elim (Bool-cases (t.is_open && round == t.open_round)) [
                | inr c ↦ inl (rw (n, q, eq, o, c, request_grant, retry_grant) refl)
                | inl c ↦
                    rw (n, q, eq, o, c, request_grant, retry_grant) (process-IsGuarded true g b)
              ]
            ]
          ]
        ]
  ]
