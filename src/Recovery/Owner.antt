-- ===== src/Recovery/Owner.antt =====
-- The owner of a recovery and the stuck agent.
use flock_os.Recovery.{
  AgentNode, ChainOfCommand, add_agents, from_agents, get_agent, manager_of, resolve_recovery_owner,
}
use flock_os.Base.Dict.{insert, lookup-insert}
use flock_os.Base.{
  ◌≡◌, ◌≢◌, ◌⊎◌, sym, ap, ◌∙◌, String, string_eq, ◌==◌, eq_iff_lem, eq_of_beq, Bool-cases,
  Option-cases, not, inl, inr, List, [], ◌∷◌, Option, none, some, if◌then◌else◌, arith,
}

-- Each agent stands under its own id.
record IsIndexed (chain : ChainOfCommand) : Type 0 where
  own_id : (id : String) (node : AgentNode) → get_agent chain id ≡ some node → node.id ≡ id

add_agents-IsIndexed :
    (chain : ChainOfCommand) (agents : List AgentNode)
    → IsIndexed chain
    → IsIndexed (add_agents chain agents)
unfolding add_agents
add_agents-IsIndexed chain [] h = h
add_agents-IsIndexed chain (agent ∷ agents) h =
    add_agents-IsIndexed (insert agent.id agent chain) agents (record {
      own_id = λ id node there. elim (Bool-cases (agent.id == id)) [
        | inl same ↦
            unfold get_agent in
            ground
              (arith, there, lookup-insert agent.id id agent chain, eq_iff_lem agent.id id, same)
        | inr other ↦ h.own_id id node (
            unfold get_agent in ground (arith, there, lookup-insert agent.id id agent chain, other))
      ];
    })

from_agents-IsIndexed : (agents : List AgentNode) → IsIndexed (from_agents agents)
unfolding from_agents get_agent
from_agents-IsIndexed agents =
    add_agents-IsIndexed [] agents (record { own_id = λ id node there. ground (arith, there) })

-- The peer that stands in for a missing manager is not the stuck agent.
fallback_owner : String → Option String → Option String
fallback_owner stuck none = none
fallback_owner stuck (some peer) = if not (peer == stuck) then some peer else none

fallback_owner-other :
    (stuck owner : String) (fallback : Option String)
    → fallback_owner stuck fallback ≡ some owner
    → owner ≢ stuck
unfolding fallback_owner
fallback_owner-other stuck owner none h same = ground (arith, h)
fallback_owner-other stuck owner (some peer) h same = ground (arith, h, same, eq_iff_lem peer stuck)

module _ (chain : ChainOfCommand) (indexed : IsIndexed chain) (stuck : String)
    (node : AgentNode) where
  managed :
      (manager : AgentNode) (m owner : String) (fallback : Option String)
      → get_agent chain stuck ≡ some node
      → node.reports_to ≡ some m
      → get_agent chain m ≡ some manager
      → resolve_recovery_owner stuck chain fallback ≡ some owner
      → owner ≡ m
  unfolding resolve_recovery_owner
  managed manager m owner fallback there up above h =
      let owns : manager.id ≡ owner = ground (arith, there, up, above, h) in
      sym owns ∙ indexed.own_id m manager above

  unmanaged :
      (owner : String) (fallback : Option String)
      → get_agent chain stuck ≡ some node
      → manager_of chain stuck ≡ none
      → resolve_recovery_owner stuck chain fallback ≡ some owner
      → owner ≢ stuck
  unfolding resolve_recovery_owner
  unmanaged owner fallback there top h =
      fallback_owner-other stuck owner fallback (by_peer fallback h)
    where
      by_peer :
          (f : Option String)
          → resolve_recovery_owner stuck chain f ≡ some owner
          → fallback_owner stuck f ≡ some owner
      by_peer none h' = let p : ⊥ = ground (arith, there, top, h') in absurd p
      by_peer (some peer) h' = unfold fallback_owner in ground (arith, there, top, h')

-- The owner that a chain built from agents resolves to is not the stuck agent, unless that agent is
-- recorded as reporting to itself.
pub resolve_recovery_owner-other :
    (agents : List AgentNode) (stuck owner : String) (fallback : Option String)
    → resolve_recovery_owner stuck (from_agents agents) fallback ≡ some owner
    → (owner ≢ stuck)
      ⊎ ((node : AgentNode) × (get_agent (from_agents agents) stuck ≡ some node)
          × (node.reports_to ≡ some stuck))
resolve_recovery_owner-other agents stuck owner fallback h =
    let chain = from_agents agents in
    let indexed = from_agents-IsIndexed agents in
    elim (Option-cases (get_agent chain stuck)) [
      | inl unknown ↦
          let p : ⊥ = unfold resolve_recovery_owner in ground (arith, unknown, h) in absurd p
      | inr (node, there) ↦ elim (Option-cases node.reports_to) [
        | inl top ↦ inl (
            unmanaged chain indexed stuck node owner fallback there
              (unfold manager_of in ground (arith, there, top)) h)
        | inr (m, up) ↦ elim (Option-cases (get_agent chain m)) [
          | inl missing ↦ inl (
              unmanaged chain indexed stuck node owner fallback there
                (unfold manager_of in ground (arith, there, up, missing)) h)
          | inr (manager, above) ↦
              let same =
                managed chain indexed stuck node manager m owner fallback there up above h in
              elim (Bool-cases (m == stuck)) [
                | inl itself ↦
                    inr (node, there, up ∙ ap (λ (x : String). some x) (eq_of_beq itself))
                | inr another ↦ inl (λ own. ground (arith, own, same, another, eq_iff_lem m stuck))
              ]
        ]
      ]
    ]
