-- ===== src/Kernel/Activations/Live.antt =====
-- packages/kernel/src/invariants.ts: what makes an Activation live.
use torsor.Prelude.{
  ℕ, ◌<◌, ◌≡◌, ◌↔◌, refl, ap, ◌∙◌, Bool, true, false, not, ◌||◌, Option, none, some, arith, eq_iff,
  is_none, leb, and_true,
}
use torsor.Kernel.Rows.{
  Attention, DomainFence, Run, Activation, is_open, open_attention, active_run,
}
use torsor.Kernel.Activations.Validity.{
  Scope, run_scope, attention_scope, live, fence_matches, is_over, run_generation, attention_token,
  run_validity, attention_validity, scope_validity, activation_validity_at,
}
use torsor.Kernel.Activations.Columns.{
  same_text-equal, same_text-same, same_number-equal, same_number-same, is_active_run-active,
  is_open-open, refused, passed, not-false, none_of,
}

-- The Activation serves the Run's owner, in the Run's current generation, and the Run is Active.
pub record RunLive (a : Activation) (run : Run) : Type 0 where
  pub owner : a.agent_id ≡ run.owner_agent_id
  pub working : run.state ≡ active_run
  pub current : run_generation a ≡ some run.activation_generation

-- The fence stands for the domain of the Attention and for its present lease.
pub record FenceHolds (attention : Attention) (fence : DomainFence) : Type 0 where
  pub agent : fence.agent_id ≡ attention.target_agent_id
  pub project : fence.project_id ≡ attention.project_id
  pub channel : fence.channel_id ≡ attention.channel_id
  pub thread : fence.thread_root_id ≡ attention.thread_root_id
  pub token : fence.lease_token ≡ attention.handler_lease_token
  pub until : fence.lease_expires_at ≡ attention.handler_lease_expires_at
  pub attention_of : fence.attention_id ≡ attention.id

-- The Activation serves the target of an Open Attention under its handler lease, which lasts beyond
-- the instant and has the fence of its domain.
pub record AttentionLive (a : Activation) (attention : Attention) (fence : Option DomainFence)
    (at : ℕ) : Type 0 where
  pub target : a.agent_id ≡ attention.target_agent_id
  pub waits : attention.status ≡ open_attention
  pub leased : attention.handler_lease_token ≡ attention_token a
  pub lasting : (expiry : ℕ) × ((attention.handler_lease_expires_at ≡ some expiry) × (at < expiry))
  pub fenced : (f : DomainFence) × ((fence ≡ some f) × FenceHolds attention f)

abbrev pub ScopeLive : Activation → Scope → ℕ → Type 0
ScopeLive a (run_scope run) at = RunLive a run
ScopeLive a (attention_scope attention fence) at = AttentionLive a attention fence at

pub record IsLive (a : Activation) (scope : Scope) (at : ℕ) : Type 0 where
  pub unfinished : a.finished_at ≡ none
  pub unrevoked : a.revoked_at ≡ none
  pub unexpired : at < a.expires_at
  pub scoped : ScopeLive a scope at

run_sound : (a : Activation) (run : Run) → run_validity a run ≡ live → RunLive a run
unfolding run_validity
run_sound a run h =
    let (agent, h1) = refused _ _ _ h in
    let (state, h2) = refused _ _ _ h1 in
    let (generation, h3) = refused _ _ _ h2 in
    record {
      owner = (eq_iff a.agent_id run.owner_agent_id).0 (not-false _ agent);
      working = is_active_run-active run.state (not-false _ state);
      current = same_number-equal _ _ (not-false _ generation);
    }

run_complete : (a : Activation) (run : Run) → RunLive a run → run_validity a run ≡ live
unfolding run_validity
run_complete a run l =
    rw
      (
        (eq_iff a.agent_id run.owner_agent_id).1 l.owner,
        l.working,
        same_number-same (run_generation a) (some run.activation_generation) l.current,
      )
      refl

or_false : (a b : Bool) → (a || b) ≡ false → (a ≡ false) × (b ≡ false)
or_false true b h = cc
or_false false b h = (refl, h)

-- the columns of a matching fence
fence_sound :
    (attention : Attention) (fence : Option DomainFence)
    → fence_matches attention fence attention.handler_lease_token ≡ true
    → (f : DomainFence) × ((fence ≡ some f) × FenceHolds attention f)
fence_sound attention none h = cc
fence_sound attention (some f) h =
    let (h6, of) = and_true _ _ h in
    let (h5, until) = and_true _ _ h6 in
    let (h4, token) = and_true _ _ h5 in
    let (h3, thread) = and_true _ _ h4 in
    let (h2, channel) = and_true _ _ h3 in
    let (h1, project) = and_true _ _ h2 in
    let (h0, agent) = and_true _ _ h1 in
    (
      f,
      (
        refl,
        record {
          agent = (eq_iff f.agent_id attention.target_agent_id).0 agent;
          project = (eq_iff f.project_id attention.project_id).0 project;
          channel = (eq_iff f.channel_id attention.channel_id).0 channel;
          thread = (eq_iff f.thread_root_id attention.thread_root_id).0 thread;
          token = same_text-equal f.lease_token attention.handler_lease_token token;
          until = same_number-equal f.lease_expires_at attention.handler_lease_expires_at until;
          attention_of = (eq_iff f.attention_id attention.id).0 of;
        },
      ),
    )

fence_complete :
    (attention : Attention) (f : DomainFence)
    → FenceHolds attention f
    → fence_matches attention (some f) attention.handler_lease_token ≡ true
fence_complete attention f l =
    rw
      (
        same_text-same attention.handler_lease_token attention.handler_lease_token refl,
        (eq_iff f.agent_id attention.target_agent_id).1 l.agent,
        (eq_iff f.project_id attention.project_id).1 l.project,
        (eq_iff f.channel_id attention.channel_id).1 l.channel,
        (eq_iff f.thread_root_id attention.thread_root_id).1 l.thread,
        same_text-same f.lease_token attention.handler_lease_token l.token,
        same_number-same f.lease_expires_at attention.handler_lease_expires_at l.until,
        (eq_iff f.attention_id attention.id).1 l.attention_of,
      )
      refl

lasting_sound :
    (x : Option ℕ) (at : ℕ)
    → is_over x at ≡ false
    → (expiry : ℕ) × ((x ≡ some expiry) × (at < expiry))
lasting_sound none at h = cc
lasting_sound (some n) at h = (n, (refl, ground arith))

lasting_complete : (x : Option ℕ) (at n : ℕ) → x ≡ some n → at < n → is_over x at ≡ false
lasting_complete none at n h l = cc
lasting_complete (some m) at n h l = ground arith

attention_sound :
    (a : Activation) (attention : Attention) (fence : Option DomainFence) (at : ℕ)
    → attention_validity a attention fence at ≡ live
    → AttentionLive a attention fence at
unfolding attention_validity
attention_sound a attention fence at h =
    let (agent, h1) = refused _ _ _ h in
    let (state, h2) = refused _ _ _ h1 in
    let (lease, h3) = refused _ _ _ h2 in
    let (lease1, fenced) = or_false _ _ lease in
    let (token, lasting) = or_false _ _ lease1 in
    record {
      target = (eq_iff a.agent_id attention.target_agent_id).0 (not-false _ agent);
      waits = is_open-open attention.status (not-false _ state);
      leased = same_text-equal _ _ (not-false _ token);
      lasting = lasting_sound attention.handler_lease_expires_at at lasting;
      fenced = fence_sound attention fence (not-false _ fenced);
    }

attention_complete :
    (a : Activation) (attention : Attention) (fence : Option DomainFence) (at : ℕ)
    → AttentionLive a attention fence at
    → attention_validity a attention fence at ≡ live
unfolding attention_validity
attention_complete a attention fence at l =
    let (n, (n_eq, later)) = l.lasting in
    let (f, (f_eq, holds)) = l.fenced in
    rw
      (
        (eq_iff a.agent_id attention.target_agent_id).1 l.target,
        ap is_open l.waits,
        same_text-same attention.handler_lease_token (attention_token a) l.leased,
        lasting_complete attention.handler_lease_expires_at at n n_eq later,
        ap (λ x. fence_matches attention x attention.handler_lease_token) f_eq
            ∙ fence_complete attention f holds,
      )
      refl

scope_sound :
    (a : Activation) (scope : Scope) (at : ℕ)
    → scope_validity a scope at ≡ live
    → ScopeLive a scope at
scope_sound a (run_scope run) at h = run_sound a run h
scope_sound a (attention_scope attention fence) at h = attention_sound a attention fence at h

scope_complete :
    (a : Activation) (scope : Scope) (at : ℕ)
    → ScopeLive a scope at
    → scope_validity a scope at ≡ live
scope_complete a (run_scope run) at h = run_complete a run h
scope_complete a (attention_scope attention fence) at h = attention_complete a attention fence at h

not_over : (n at : ℕ) → leb n at ≡ false → at < n
not_over n at h = ground arith

-- An Activation is valid at an instant exactly when it is neither finished nor revoked nor expired
-- then, and its scope is live: its Run is Active, owned by its Agent and in the generation it was
-- started for; or its Attention is Open, addressed to its Agent and held under its lease token, by a
-- lease that lasts beyond the instant and whose domain fence agrees with it in every column.
pub activation_validity_at-IsLive :
    (a : Activation) (scope : Scope) (at : ℕ)
    → (activation_validity_at a scope at ≡ live) ↔ IsLive a scope at
unfolding activation_validity_at
activation_validity_at-IsLive a scope at = (
  λ h.
      let (finish, h1) = refused _ _ _ h in
      let (revoke, h2) = refused _ _ _ h1 in
      let (expire, h3) = refused _ _ _ h2 in
      record {
        unfinished = none_of a.finished_at finish;
        unrevoked = none_of a.revoked_at revoke;
        unexpired = not_over a.expires_at at expire;
        scoped = scope_sound a scope at h3;
      },
  λ l. passed _ _ _ (ap (λ x. not (is_none x)) l.unfinished) (
      passed _ _ _ (ap (λ x. not (is_none x)) l.unrevoked)
        (passed _ _ _ (later l.unexpired) (scope_complete a scope at l.scoped))),
)
  where
    later : at < a.expires_at → leb a.expires_at at ≡ false
    later h = ground arith
