-- ===== src/Agent/Stale/Beats.antt =====
-- Which agents the cleanup leaves, when the database carries out every statement.
use jrok_rs.Base.{
  ℕ, ◌+◌, ◌^◌, ◌<◌, ◌≡◌, refl, ◌∙◌, ap, Bool, true, false, ◌||◌, Option, none, some, String, List,
  [], ◌∷◌, arith, eq_iff, ltb, if◌then◌else◌, Option-cases, inl, inr,
}
use jrok_rs.Base.{◌=s◌}
use jrok_rs.Base.Int.{ℤ, pos, as_i64, sub_i64, as_i64_small, sub_i64_small}
use jrok_rs.Base.Map.{StrMap, get, Unique, get-remove_self, get-remove_ne}
use jrok_rs.Agent.{AgentRegistry, AgentState}
use jrok_rs.Agent.Register.{unregister}
use jrok_rs.Agent.Stale.{update_heartbeat, is_stale, stale_ids, unregister_each, cleanup_stale}
use jrok_rs.Error.{Result, ok}

-- The database carries out everything.
abbrev pub fine : String → Result (Unit {0})
fine _ = ok tt

member : String → List String → Bool
member id [] = false
member id (j ∷ js) = (j =s id) || member id js

abbrev drop_if : Bool → Option AgentState → Option AgentState
drop_if true o = none
drop_if false o = o

unregister-fine :
    (id : String) (registry : AgentRegistry) → (unregister (ok tt) id registry).1 ≡ ok tt
unfolding unregister
unregister-fine id registry = ground arith

get-unregister :
    (id key : String) (registry : AgentRegistry)
    → get key (unregister (ok tt) id registry).0.agents
      ≡ drop_if (id =s key) (get key registry.agents)
unfolding unregister
get-unregister id key registry = elim (Option-cases (get id registry.agents)) [
  | inl missing ↦ rw (missing, unregister) (ground (arith, eq_iff id key, missing))
  | inr found ↦
      rw (found.1, unregister)
        (ground (
          arith,
          eq_iff id key,
          get-remove_self id registry.agents,
          get-remove_ne id key registry.agents,
        ))
]

unregister_each_step :
    (id : String) (ids : List String) (registry : AgentRegistry)
    → unregister_each fine (id ∷ ids) registry
      ≡ unregister_each fine ids (unregister (ok tt) id registry).0
unfolding unregister_each
unregister_each_step id ids registry = rw (unregister-fine id registry, unregister_each) refl

unregister_each-fine :
    (ids : List String) (registry : AgentRegistry) → (unregister_each fine ids registry).1 ≡ ok tt
unfolding unregister_each
unregister_each-fine [] registry = refl
unregister_each-fine (id ∷ ids) registry =
    ap (λ r. r.1) (unregister_each_step id ids registry)
    ∙ unregister_each-fine ids (unregister (ok tt) id registry).0

get-unregister_each :
    (ids : List String) (key : String) (registry : AgentRegistry)
    → get key (unregister_each fine ids registry).0.agents
      ≡ drop_if (member key ids) (get key registry.agents)
unfolding unregister_each member
get-unregister_each [] key registry = refl
get-unregister_each (id ∷ ids) key registry =
    ap (λ r. get key r.0.agents) (unregister_each_step id ids registry)
    ∙ get-unregister_each ids key (unregister (ok tt) id registry).0
    ∙ rw (get-unregister id key registry)
        (drop_if_or (id =s key) (member key ids) (get key registry.agents))
  where
    drop_if_or : (p q : Bool) (o : Option AgentState) → drop_if q (drop_if p o) ≡ drop_if (p || q) o
    drop_if_or p q o = ground arith

member-stale_ids_absent :
    (cutoff : ℤ) (key : String) (agents : StrMap AgentState)
    → get key agents ≡ none
    → member key (stale_ids cutoff agents) ≡ false
unfolding member stale_ids get
member-stale_ids_absent cutoff key [] absent = refl
member-stale_ids_absent cutoff key ((j, a) ∷ agents) absent =
    ground (arith, eq_iff j key, member-stale_ids_absent cutoff key agents)

member-stale_ids :
    (cutoff : ℤ) (key : String) (agents : StrMap AgentState) (agent : AgentState)
    → Unique agents
    → get key agents ≡ some agent
    → member key (stale_ids cutoff agents) ≡ is_stale cutoff agent
unfolding member stale_ids get
member-stale_ids cutoff key [] agent u found = cc
member-stale_ids cutoff key ((j, a) ∷ agents) agent u found = ground (
  arith,
  eq_iff j key,
  member-stale_ids cutoff key agents agent u.1,
  member-stale_ids_absent cutoff key agents,
  u.0,
)

-- The test against a cutoff `now - timeout`, on times that do not overflow.
is_stale-sub_i64 :
    (now timeout t : ℕ) (agent : AgentState)
    → now < 2 ^ 63
    → timeout < 2 ^ 63
    → agent.last_heartbeat ≡ pos t
    → is_stale (sub_i64 (as_i64 now) (pos timeout)) agent ≡ ltb (t + timeout) now
is_stale-sub_i64 now timeout t agent n m beat =
    rw (beat, as_i64_small now n, sub_i64_small now timeout n m) (ground arith)

-- A number of heartbeats of any agents, with any answers of the database.
abbrev pub beats : List (String × Result (Unit {0})) → AgentRegistry → AgentRegistry
beats [] registry = registry
beats ((id, answer) ∷ rest) registry = beats rest (update_heartbeat answer id registry).0

beats-same :
    (bs : List (String × Result (Unit {0}))) (registry : AgentRegistry)
    → beats bs registry ≡ registry
unfolding update_heartbeat
beats-same [] registry = refl
beats-same ((id, answer) ∷ rest) registry = beats-same rest registry

cleanup_stale-get :
    (now_ms timeout_ms t : ℕ) (id : String) (agent : AgentState) (registry : AgentRegistry)
    → Unique registry.agents
    → now_ms < 2 ^ 63
    → timeout_ms < 2 ^ 63
    → get id registry.agents ≡ some agent
    → agent.last_heartbeat ≡ pos t
    → let after = cleanup_stale fine (ok tt) now_ms (pos timeout_ms) registry in
      (after.1 ≡ ok tt)
      × (get id after.0.agents ≡ (if ltb (t + timeout_ms) now_ms then none else some agent))
unfolding cleanup_stale
cleanup_stale-get now_ms timeout_ms t id agent registry u n m found beat =
    let ids = stale_ids (sub_i64 (as_i64 now_ms) (pos timeout_ms)) registry.agents in
    rw (unregister_each-fine ids registry, cleanup_stale)
      (
        refl,
        get-unregister_each ids id registry
            ∙ rw
                (
                  member-stale_ids (sub_i64 (as_i64 now_ms) (pos timeout_ms)) id registry.agents
                      agent u found,
                  is_stale-sub_i64 now_ms timeout_ms t agent n m beat,
                  found,
                )
                (ground arith),
      )

-- If the database carries out every statement, times lie below 2^63 and no id is held twice, then the
-- cleanup keeps an agent with last_heartbeat = t exactly while now <= t + timeout; heartbeats
-- that come before it, of this agent or others, however the database answers them, do not change
-- that.
pub cleanup_stale-update_heartbeat :
    (now_ms timeout_ms t : ℕ) (id : String) (agent : AgentState) (registry : AgentRegistry)
    (bs : List (String × Result (Unit {0})))
    → Unique registry.agents
    → now_ms < 2 ^ 63
    → timeout_ms < 2 ^ 63
    → get id registry.agents ≡ some agent
    → agent.last_heartbeat ≡ pos t
    → let after = cleanup_stale fine (ok tt) now_ms (pos timeout_ms) (beats bs registry) in
      (after.1 ≡ ok tt)
      × (get id after.0.agents ≡ (if ltb (t + timeout_ms) now_ms then none else some agent))
cleanup_stale-update_heartbeat now_ms timeout_ms t id agent registry bs u n m found beat =
    rw (beats-same bs registry)
      (cleanup_stale-get now_ms timeout_ms t id agent registry u n m found beat)
