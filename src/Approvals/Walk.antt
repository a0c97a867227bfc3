-- ===== src/Approvals/Walk.antt =====
-- The walk up the groups, and the leaders that it meets.
use flock_os.Approvals.{
  ApprovalPolicy, ChainNode, ChainGateway, StepSpec, Walked, level_for_depth, branch_admin,
  leader_step, visit_leader, visit_leaders, walk, reindex,
}
use flock_os.Base.{
  ℕ, zero, suc, ◌+◌, ◌≡◌, refl, sym, ap, ◌∙◌, String, string_eq, option_eq, ◌==◌, Bool-cases, false,
  not, ◌&&◌, ◌||◌, inl, inr, List, [], ◌∷◌, ◌++◌, map, some, contains, IsDistinct, IsDistinct-snoc,
  All, All-append, length, if◌then◌else◌, arith,
}

pub reindex-append :
    (i : ℕ) (xs ys : List StepSpec)
    → reindex i (xs ++ ys) ≡ reindex i xs ++ reindex (i + length xs) ys
unfolding reindex
reindex-append i [] ys = ap (λ n. reindex n ys) (ground arith)
reindex-append i (x ∷ xs) ys =
    ap (λ l. record x { idx = i } ∷ l)
      (reindex-append (suc i) xs ys ∙ ap (λ n. reindex (suc i) xs ++ reindex n ys) (ground arith))

pub map-append {ℓ κ} :
    {A : Type ℓ} {B : Type κ} (f : A → B) (xs ys : List A) → map f (xs ++ ys) ≡ map f xs ++ map f ys
map-append f [] ys = refl
map-append f (x ∷ xs) ys = ap (λ l. f x ∷ l) (map-append f xs ys)

module _ (requested_by : String) (policy : ApprovalPolicy) (gateway : ChainGateway) where
  -- A step of a leader: never the admin's level, and skipped exactly when the leader asks and may
  -- not approve alone.
  pub record IsLeaderStep (s : StepSpec) : Type 0 where
    pub level : (s.approver_level == branch_admin) ≡ false
    pub status : s.step_status ≡ (
        if s.approver_member == some requested_by && not policy.allow_self_approval
        then "Skipped"
        else "Pending")

  pub record IsWalked (w : Walked) : Type 0 where
    pub numbered : reindex 0 w.specs ≡ w.specs
    pub members : map (λ s. s.approver_member) w.specs ≡ map (λ x. some x) w.seen
    pub distinct : IsDistinct w.seen
    pub leaders : All (λ s. IsLeaderStep s) w.specs

  level_for_depth-leader : (depth : ℕ) → (level_for_depth depth == branch_admin) ≡ false
  level_for_depth-leader zero = refl
  level_for_depth-leader (suc zero) = refl
  level_for_depth-leader (suc (suc depth)) = refl

  leader_step-IsLeaderStep :
      (level group leader : String) (idx : ℕ)
      → (level == branch_admin) ≡ false
      → IsLeaderStep (leader_step requested_by policy gateway level group leader idx)
  leader_step-IsLeaderStep level group leader idx h = record { level = h; status = refl }

  visit_leader-IsWalked :
      (level group : String) (w : Walked) (leader : String)
      → (level == branch_admin) ≡ false
      → IsWalked w
      → IsWalked (visit_leader requested_by policy gateway level group w leader)
  unfolding reindex
  visit_leader-IsWalked level group w leader h walked =
      elim (Bool-cases (leader == "" || contains w.seen leader)) [
        | inl skipped ↦ unfold visit_leader in rw skipped walked
        | inr new ↦
            unfold visit_leader in
            rw new (record {
              numbered =
                  reindex-append 0 w.specs (step ∷ [])
                  ∙ ap (λ l. l ++ reindex (0 + length w.specs) (step ∷ [])) walked.numbered
                  ∙ ap (λ n. w.specs ++ record step { idx = n } ∷ []) (ground arith);
              members =
                  map-append (λ (s : StepSpec). s.approver_member) w.specs (step ∷ [])
                  ∙ ap (λ l. l ++ some leader ∷ []) walked.members
                  ∙ sym (map-append (λ (x : String). some x) w.seen (leader ∷ []));
              distinct = IsDistinct-snoc w.seen leader walked.distinct (ground arith);
              leaders =
                  All-append (λ s. IsLeaderStep s) w.specs (step ∷ []) walked.leaders
                    (leader_step-IsLeaderStep level group leader (length w.specs) h, tt);
            })
      ]
    where
      step : StepSpec
      step = leader_step requested_by policy gateway level group leader (length w.specs)

  visit_leaders-IsWalked :
      (level group : String) (w : Walked) (leaders : List String)
      → (level == branch_admin) ≡ false
      → IsWalked w
      → IsWalked (visit_leaders requested_by policy gateway level group w leaders)
  unfolding visit_leaders
  visit_leaders-IsWalked level group w [] h walked = walked
  visit_leaders-IsWalked level group w (leader ∷ leaders) h walked =
      visit_leaders-IsWalked level group
        (visit_leader requested_by policy gateway level group w leader) leaders h
        (visit_leader-IsWalked level group w leader h walked)

  pub walk-IsWalked :
      (depth : ℕ) (w : Walked) (nodes : List ChainNode)
      → IsWalked w
      → IsWalked (walk requested_by policy gateway depth w nodes)
  unfolding walk
  walk-IsWalked depth w [] walked = walked
  walk-IsWalked depth w (node ∷ nodes) walked =
      walk-IsWalked (suc depth)
        (visit_leaders requested_by policy gateway (level_for_depth depth) node.group w
          node.leaders)
        nodes
        (visit_leaders-IsWalked (level_for_depth depth) node.group w node.leaders
          (level_for_depth-leader depth) walked)
