-- ===== src/Normalized/Plan/Total.antt =====
-- The function Plan ends on a schema without cycles, with fuel above the rank of its root.
use schema_to_table.Prelude.{
  ℕ, zero, suc, ◌≤◌, ◌<◌, ◌≡◌, ◌&&◌, not, Option, none, some, List, [], ◌∷◌, ◌++◌, All, arith, inl,
  inr, Bool-cases,
}
use schema_to_table.Text.{Text, is_empty, trim_space}
use schema_to_table.Outcome.{Outcome, ok, each}
use schema_to_table.Outcome.Laws.{Ends-if, Ends, Ends-bind, Ends-each}
use schema_to_table.Schema.Names.{sorted_keys, to_snake}
use schema_to_table.Schema.Node
use schema_to_table.Schema.Node.{Node, Ptr, Document, deref, resolve, child}
use schema_to_table.Schema.Types.{is_array, is_object, is_composite, is_nil, is_none}
use schema_to_table.Schema.Values.{child_prefix, visits}
use schema_to_table.Schema.Values.Visits.{deref-Ends, resolve-Ends}
use schema_to_table.Normalized.Consts.{
  Consts, collect_const, collect_consts, variant_consts, detect_discriminator,
}
use schema_to_table.Normalized.Plan.{plan, pk_type, find_discriminator}
use schema_to_table.Normalized.Model.{
  Tree, spec, arrays, plan_node, plan_branches, plan_property, plan_child_table, type_of, is_scalar,
  has_table,
}
use schema_to_table.Normalized.Plan.Ranked.{
  IsRanked, Falls-at, keeps_at, Ends-each-All, All-left, All-right, child-All, type_of-Ends,
}

module _ (doc : Document) (rank : Ptr → ℕ) (r : IsRanked doc rank) (fuel : ℕ) where
  module _ (plan plan_anew : Text → Ptr → Tree → Outcome Tree)
      (h : (prefix : Text) (s : Ptr) (t : Tree) → rank s < fuel → Ends (plan prefix s t))
      (k : (prefix : Text) (s : Ptr) (t : Tree) → rank s < fuel → Ends (plan_anew prefix s t)) where
    plan_child_table-Ends :
        (prefix segment : Text) (prop : Node) (parent : Tree)
        → rank prop.items < fuel
        → Ends (plan_child_table doc plan_anew prefix segment prop parent)
    unfolding plan_child_table
    plan_child_table-Ends prefix segment prop parent lt = Ends-if (is_nil prop.items) _ _ tt (
        Ends-bind (resolve doc prop.items) _ (resolve-Ends doc prop.items) λ items f.
          Ends-if (has_table _ (arrays parent)) _ _ tt (
            Ends-bind (type_of doc items) _ (type_of-Ends doc items) λ type _.
              Ends-if (is_scalar type) _ _
                (Ends-bind (deref doc items) _ (deref-Ends doc items) λ n _. tt)
                (Ends-bind (plan_anew [] items _) _
                  (k [] items _ (omega (arith, keeps_at doc rank r prop.items items f)))
                  λ planned _. tt)))

    plan_property-Ends :
        (prefix : Text) (properties : List (Text × Ptr)) (key : Text) (tbl : Tree)
        → rank (child key properties) < fuel
        → Ends (plan_property doc plan plan_anew prefix properties key tbl)
    unfolding plan_property
    plan_property-Ends prefix properties key tbl lt =
        Ends-bind (resolve doc (child key properties)) _ (resolve-Ends doc (child key properties))
          λ q e. Ends-bind (deref doc q) _ (deref-Ends doc q) λ n f.
            Ends-if (is_array n) _ _
              (plan_child_table-Ends (child_prefix prefix key) (to_snake key) n tbl (
                omega (
                  arith,
                  (Falls-at doc rank r q n f).3,
                  keeps_at doc rank r (child key properties) q e,
                )))
              (Ends-if (is_object n && is_nil n.items && not (is_composite n)) _ _ tt (
                Ends-if (is_composite n) _ _
                  (h (child_prefix prefix key) q tbl
                    (omega (arith, keeps_at doc rank r (child key properties) q e)))
                  tt))

    plan_branches-Ends :
        (prefix : Text) (p : Ptr) (n : Node) (tbl : Tree)
        → deref doc p ≡ ok n
        → rank p ≤ fuel
        → Ends (plan_branches doc plan plan_anew prefix n tbl)
    unfolding plan_branches
    plan_branches-Ends prefix p n tbl e le =
        Ends-bind (each (λ sub. plan prefix sub) n.all_of tbl) _
          (walk n.all_of
            (All-left Below n.all_of (n.one_of ++ n.any_of) ((Falls-at doc rank r p n e).1)) tbl)
          λ tbl₁ _.
            Ends-bind (each (λ sub. plan prefix sub) (n.one_of ++ n.any_of) tbl₁) _
              (walk (n.one_of ++ n.any_of)
                (All-right Below n.all_of (n.one_of ++ n.any_of) ((Falls-at doc rank r p n e).1))
                tbl₁)
              λ tbl₂ _.
                Ends-each (plan_property doc plan plan_anew prefix n.properties)
                  (λ key t. plan_property-Ends prefix n.properties key t (lower (child_below key)))
                  (sorted_keys n.properties) tbl₂
      where
        Below : Ptr → Type 0
        Below s = rank s < rank p

        lower : {s : Ptr} → rank s < rank p → rank s < fuel
        lower lt = omega arith

        walk :
            (l : List Ptr)
            → All (λ s. rank s < rank p) l
            → (t : Tree) → Ends (each (λ sub. plan prefix sub) l t)
        walk l a t =
            Ends-each-All (λ s. rank s < rank p) (λ sub. plan prefix sub)
              (λ s t b. h prefix s t (lower b)) l a t

        child_below : (key : Text) → rank (child key n.properties) < rank p
        child_below key =
            child-All (λ s. rank s < rank p) key n.properties ((Falls-at doc rank r p n e).0)
              ((Falls-at doc rank r p n e).2)

module _ (doc : Document) (rank : Ptr → ℕ) (r : IsRanked doc rank) where
  plan_node-Ends :
      (fuel : ℕ) (visited : List Ptr) (prefix : Text) (s : Ptr) (tbl : Tree)
      → rank s < fuel
      → Ends (plan_node doc fuel visited prefix s tbl)
  unfolding plan_node
  plan_node-Ends zero visited prefix s tbl lt = elim lt [ ]
  plan_node-Ends (suc fuel) visited prefix none tbl lt = tt
  plan_node-Ends (suc fuel) visited prefix (some i) tbl lt =
      Ends-bind (resolve doc (some i)) _ (resolve-Ends doc (some i)) λ q e.
        Ends-if (visits visited q) _ _ tt (
          Ends-bind (deref doc q) _ (deref-Ends doc q) λ n f.
            plan_branches-Ends doc rank r fuel (plan_node doc fuel (q ∷ visited))
              (plan_node doc fuel []) (λ p s t lt. plan_node-Ends fuel (q ∷ visited) p s t lt)
              (λ p s t lt. plan_node-Ends fuel [] p s t lt) prefix q n tbl f
              (omega (arith, keeps_at doc rank r (some i) q e)))

  collect_const-Ends : (kp : Text × Ptr) (out : Consts) → Ends (collect_const doc kp out)
  unfolding collect_const
  collect_const-Ends (key, prop) out = Ends-bind (deref doc prop) _ (deref-Ends doc prop) λ n _. tt

  collect_consts-Ends :
      (fuel : ℕ) (s : Ptr) (out : Consts) → rank s < fuel → Ends (collect_consts doc fuel s out)
  unfolding collect_consts
  collect_consts-Ends zero s out lt = elim lt [ ]
  collect_consts-Ends (suc fuel) none out lt = tt
  collect_consts-Ends (suc fuel) (some i) out lt =
      Ends-bind (resolve doc (some i)) _ (resolve-Ends doc (some i)) λ q e.
        Ends-bind (deref doc q) _ (deref-Ends doc q) λ n f.
          Ends-bind (each (collect_consts doc fuel) n.all_of out) _
            (Ends-each-All (λ s. rank s < rank q) (collect_consts doc fuel)
              (λ s o b.
                collect_consts-Ends fuel s o (omega (arith, keeps_at doc rank r (some i) q e)))
              n.all_of
              (All-left (λ s. rank s < rank q) n.all_of (n.one_of ++ n.any_of)
                ((Falls-at doc rank r q n f).1))
              out)
            λ out' _.
              Ends-each (collect_const doc) (λ kp o. collect_const-Ends kp o) n.properties out'

  variant_consts-Ends :
      (fuel : ℕ) (vs : List Ptr) → All (λ s. rank s < fuel) vs → Ends (variant_consts doc fuel vs)
  unfolding variant_consts
  variant_consts-Ends fuel [] a = tt
  variant_consts-Ends fuel (v ∷ vs) (lt, a) =
      Ends-bind (collect_consts doc fuel v []) _ (collect_consts-Ends fuel v [] lt) λ consts _.
        Ends-bind (variant_consts doc fuel vs) _ (variant_consts-Ends fuel vs a) λ rest _. tt

  find_discriminator-Ends :
      (fuel : ℕ) (root : Node)
      → All (λ s. rank s < fuel) (root.one_of ++ root.any_of)
      → Ends (find_discriminator fuel doc root)
  unfolding find_discriminator detect_discriminator
  find_discriminator-Ends fuel root a =
      Ends-if (is_none root.one_of && is_none root.any_of) _ _ tt (
        Ends-bind (variant_consts doc fuel (root.one_of ++ root.any_of)) _
          (variant_consts-Ends fuel (root.one_of ++ root.any_of) a) λ consts _. tt)

All-map {ℓ} :
    {A : Type ℓ} (P Q : A → Type 0) → ((x : A) → P x → Q x) → (xs : List A) → All P xs → All Q xs
All-map P Q f [] h = tt
All-map P Q f (x ∷ xs) (p, h) = (f x p, All-map P Q f xs h)

-- The function Plan ends with any fuel above the rank of the root, where the nodes of the decoded schema have a
-- rank that falls from a node to its branches, its properties and its items, and does not rise along
-- a reference.
pub plan_total :
    (unmarshal : Text → Option Document) (doc : Document) (rank : Ptr → ℕ) (fuel : ℕ)
    (schema_doc table_name pk : Text) (headers : List (Text × Text))
    → unmarshal schema_doc ≡ some doc
    → IsRanked doc rank
    → rank (some doc.root) < fuel
    → Ends (plan fuel unmarshal schema_doc table_name pk headers)
unfolding plan Node.parse
plan_total unmarshal doc rank fuel schema_doc table_name pk headers u r lt =
    elim (Bool-cases (is_empty (trim_space schema_doc))) [
      | inl e ↦ rw e tt
      | inr e ↦
          rw (e, u)
            (Ends-if (is_empty (trim_space table_name)) _ _ tt (
              Ends-if (is_empty (trim_space pk)) _ _ tt (
                Ends-bind (plan_node doc fuel [] [] (some doc.root) _) _
                  (plan_node-Ends doc rank r fuel [] [] (some doc.root) _ lt)
                  λ planned _. Ends-if (is_empty (pk_type pk (spec planned).columns [])) _ _ tt (
                    Ends-bind (deref doc (some doc.root)) _ (deref-Ends doc (some doc.root))
                      λ root f.
                        Ends-bind (find_discriminator fuel doc root) _
                          (find_discriminator-Ends doc rank r fuel root (
                            All-map (λ s. rank s < rank (some doc.root)) (λ s. rank s < fuel)
                              (λ s b. omega arith) (root.one_of ++ root.any_of)
                              (All-right (λ s. rank s < rank (some doc.root)) root.all_of
                                (root.one_of ++ root.any_of)
                                ((Falls-at doc rank r (some doc.root) root f).1))))
                          λ found _. tt))))
    ]
