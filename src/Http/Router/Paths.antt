-- ===== src/Http/Router/Paths.antt =====
-- request_handler.cpp: the cursor loops follow the pieces of a path between its slashes.
use clean_architecture_cpp.Base.{
  ℕ, zero, suc, ◌+◌, ◌-◌, ◌≤◌, ◌<◌, ◌≡◌, Option, none, some, Option-cases, inl, inr, List, [], ◌∷◌,
  Text, length, drop, split, find_cases, ret, arith,
}
use clean_architecture_cpp.Http.Router.{
  RouterNode, nodes, set_nodes, set_callback, find_node, node_or_new, put_node, add_from, walk,
}

module _ {C : Type 0} where
  -- The node that pieces lead to, from a node down.
  unfoldable pub descend : RouterNode C → List Text → Option (RouterNode C)
  descend n [] = some n
  descend n (p ∷ pieces) = elim (find_node p (nodes n)) [
    | none ↦ none
    | some below ↦ descend below pieces
  ]

  -- The tree with a callback put where the pieces lead.
  unfoldable pub graft : List Text → C → RouterNode C → RouterNode C
  graft [] cb n = set_callback cb n
  graft (p ∷ pieces) cb n =
      set_nodes (put_node p (graft pieces cb (node_or_new p (nodes n))) (nodes n)) n

  -- From a cursor within the path and with more fuel than bytes are left, the look-up loop ends, throws
  -- nothing, and follows the pieces of the path from its cursor on.
  pub walk-descend :
      (fuel : ℕ) (path : Text) (start : ℕ) (n : RouterNode C)
      → start ≤ length path
      → length path - start < fuel
      → walk fuel path start n ≡ ret (descend n (split b'/' (drop start path)))
  unfolding walk descend
  walk-descend zero path start n h k = elim k [ ]
  walk-descend (suc fuel) path start n h k = elim (find_cases b'/' path start h) [
    | inl (e, s, p) ↦ rw (e, walk, s, p) (ground arith)
    | inr (end, piece, (e, s, p, le, lt)) ↦ elim (Option-cases (find_node piece (nodes n))) [
      | inl o ↦ ground arith
      | inr (below, o) ↦ ground (arith, walk-descend fuel path (end + 1) below)
    ]
  ]

  -- So does the loop of the constructor.
  pub add_from-graft :
      (fuel : ℕ) (path : Text) (start : ℕ) (cb : C) (n : RouterNode C)
      → start ≤ length path
      → length path - start < fuel
      → add_from fuel path start cb n ≡ ret (graft (split b'/' (drop start path)) cb n)
  unfolding add_from graft
  add_from-graft zero path start cb n h k = elim k [ ]
  add_from-graft (suc fuel) path start cb n h k = elim (find_cases b'/' path start h) [
    | inl (e, s, p) ↦ rw (e, add_from, s, p)
    | inr (end, piece, (e, s, p, le, lt)) ↦
        let below = node_or_new piece (nodes n) in
        rw (
          e,
          add_from,
          s,
          p,
          add_from-graft fuel path (end + 1) cb below (omega arith) (omega arith),
        )
  ]
