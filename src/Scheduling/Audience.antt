-- ===== src/Scheduling/Audience.antt =====
-- The audience of an announcement and the subtree of its branch.
use flock_os.Scheduling.{
  SchedulingGateway, Preview, Wiring, raised_by, tree_fault, branch_required, author_branch_scope,
  resolve_audience_branches, preview_audience,
}
use flock_os.Scheduling.Validity.{guarded, then_ok}
use flock_os.Permissions.{compute_branch_subtree}
use flock_os.Trees.{TreeError, ChildMap, descendants_of, subtree_of}
use flock_os.Trees.Descendants.{Below, descendants_of_outcome}
use flock_os.Base.{
  ◌≡◌, refl, sym, ap, subst, ◌∙◌, ◌↔◌, String, string_eq, ◌==◌, true, false, not, inl, inr, List,
  ◌∷◌, Option, Result, ok, err, >>=-eq-ok, ok_injective, contains, length, IsDistinct, arith,
}

-- The list is the subtree of a branch: the branch, then each branch below it once and no other.
pub record IsSubtree (children_of : ChildMap String) (branch : String) (branches : List String)
    : Type 0 where
  pub lower : List String
  pub branch_first : branches ≡ branch ∷ lower
  pub distinct : IsDistinct (branch ∷ lower)
  pub lower_iff : (b : String) → (contains lower b ≡ true) ↔ Below children_of branch b

pub unraised :
    {A : Type 0} (r : Result (TreeError String) A) {a : A}
    → raised_by tree_fault r ≡ ok a
    → r ≡ ok a
unraised (ok b) h = ap ok (ok_injective h)
unraised (err e) h = cc

pub subtree_of-IsSubtree :
    (children_of : ChildMap String) (branch : String) (branches : List String)
    → subtree_of branch children_of ≡ ok branches
    → IsSubtree children_of branch branches
unfolding subtree_of
subtree_of-IsSubtree children_of branch branches h =
    let (below, returned, joined) =
      >>=-eq-ok (descendants_of branch children_of) (λ out. ok (branch ∷ out)) h in
    elim (descendants_of_outcome children_of branch) [
      | inl (out, found, apart, exactly) ↦
          let same : below ≡ out = ok_injective (sym returned ∙ found) in
          record {
            lower = out;
            branch_first = sym (ok_injective joined) ∙ ap (λ (l : List String). branch ∷ l) same;
            distinct = apart;
            lower_iff = exactly;
          }
      | inr (c, raised, twice) ↦ absurd (ground (arith, returned, raised))
    ]

pub compute_branch_subtree-IsSubtree :
    (children_of : ChildMap String) (branch : String) (branches : List String)
    → (branch == "") ≡ false
    → compute_branch_subtree branch children_of ≡ ok branches
    → IsSubtree children_of branch branches
compute_branch_subtree-IsSubtree children_of branch branches named h =
    subtree_of-IsSubtree children_of branch branches (sym same ∙ h)
  where
    same : compute_branch_subtree branch children_of ≡ subtree_of branch children_of
    same = unfold compute_branch_subtree in rw named refl

resolve_audience_branches-IsSubtree :
    (branch : String) (gateway : SchedulingGateway) (branches : List String)
    → resolve_audience_branches branch gateway ≡ ok branches
    → IsSubtree gateway.branch_children_of branch branches
unfolding resolve_audience_branches
resolve_audience_branches-IsSubtree branch gateway branches h =
    let (named, rest) = guarded (not (branch == "")) branch_required _ h in
    compute_branch_subtree-IsSubtree gateway.branch_children_of branch branches
      (ground (arith, named))
      (unraised (compute_branch_subtree branch gateway.branch_children_of) rest)

-- A preview shows the subtree of the named branch, each branch once and none outside, with its size;
-- it is given only to a user of the session, if there is one, who passes the guard of that branch.
pub preview_audience-IsSubtree :
    (wiring : Wiring) (organization branch : String) (group : Option String) (preview : Preview)
    → preview_audience wiring organization branch group ≡ ok preview
    → IsSubtree wiring.gateway.branch_children_of branch preview.branches
      × (preview.branch_count ≡ length preview.branches)
      × (author_branch_scope wiring.permissions wiring.user branch ≡ ok tt)
unfolding preview_audience
preview_audience-IsSubtree wiring organization branch group preview h =
    let (valid, h1) = then_ok _ _ h in
    let (allowed, h2) = then_ok (author_branch_scope wiring.permissions wiring.user branch) _ h1 in
    let (branches, resolved, shown) =
      >>=-eq-ok (resolve_audience_branches branch wiring.gateway)
        (λ branches. ok (record { branches = branches; branch_count = length branches })) h2 in
    let same : record { branches = branches; branch_count = length branches } ≡ preview =
      ok_injective shown in
    subst
      (λ (p : Preview).
        IsSubtree wiring.gateway.branch_children_of branch p.branches
        × (p.branch_count ≡ length p.branches)
        × (author_branch_scope wiring.permissions wiring.user branch ≡ ok tt))
      same
      (resolve_audience_branches-IsSubtree branch wiring.gateway branches resolved, refl, allowed)
