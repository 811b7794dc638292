-- ===== src/Http/Router/Trees.antt =====
-- request_handler.cpp: what the tree of routes holds after the constructor's changes.
use clean_architecture_cpp.Base.{
  ◌≡◌, refl, ◌∙◌, if◌then◌else◌, Bool-cases, Option, none, some, Option-cases, inl, inr, List, [],
  ◌∷◌, Text, text_eq, text_eq_iff, texts_eq, arith,
}
use clean_architecture_cpp.Http.Router.{
  RouterNode, Nodes, node, nil, entry, nodes, callback, empty_node, find_node, node_or_new,
  put_node,
}
use clean_architecture_cpp.Http.Router.Paths.{descend, graft}

module _ {C : Type 0} where
  abbrev pub callback_of : Option (RouterNode C) → Option C
  callback_of none = none
  callback_of (some n) = callback n

  -- The callback where pieces lead, from a node down.
  unfoldable pub callback_at : RouterNode C → List Text → Option C
  unfolding descend
  callback_at n pieces = callback_of (descend n pieces)

  pub find_node-put_node :
      (j k : Text) (m : RouterNode C) (map : Nodes C)
      → find_node j (put_node k m map) ≡ (if text_eq k j then some m else find_node j map)
  unfolding find_node put_node
  find_node-put_node j k m nil = refl
  find_node-put_node j k m (entry i n map) =
      ground
        (arith, text_eq_iff i k, text_eq_iff i j, text_eq_iff k j, find_node-put_node j k m map)

  abbrev node_or_empty : Option (RouterNode C) → RouterNode C
  node_or_empty none = empty_node
  node_or_empty (some n) = n

  pub node_or_new-find_node :
      (k : Text) (map : Nodes C) → node_or_new k map ≡ node_or_empty (find_node k map)
  unfolding find_node node_or_new
  node_or_new-find_node k nil = refl
  node_or_new-find_node k (entry j n map) = ground (arith, node_or_new-find_node k map)

  pub callback_at-empty_node : (pieces : List Text) → callback_at empty_node pieces ≡ none
  unfolding callback_at find_node
  callback_at-empty_node [] = refl
  callback_at-empty_node (p ∷ pieces) = refl

  abbrev callback_below : Option (RouterNode C) → List Text → Option C
  callback_below none pieces = none
  callback_below (some n) pieces = callback_at n pieces

  callback_at-cons :
      (n : RouterNode C) (p : Text) (pieces : List Text)
      → callback_at n (p ∷ pieces) ≡ callback_below (find_node p (nodes n)) pieces
  unfolding callback_at
  callback_at-cons n p pieces = ground arith

  callback_at-node_or_new :
      (p : Text) (map : Nodes C) (pieces : List Text)
      → callback_at (node_or_new p map) pieces ≡ callback_below (find_node p map) pieces
  callback_at-node_or_new p map pieces =
      rw (node_or_new-find_node p map) (elim (Option-cases (find_node p map)) [
        | inl e ↦ rw e (callback_at-empty_node pieces)
        | inr (n, e) ↦ rw e
      ])

  -- A callback that is put somewhere is found there, and all others stay.
  pub callback_at-graft :
      (ps qs : List Text) (cb : C) (n : RouterNode C)
      → callback_at (graft ps cb n) qs ≡ (if texts_eq ps qs then some cb else callback_at n qs)
  unfolding graft texts_eq callback_at
  callback_at-graft [] [] cb (node old map) = refl
  callback_at-graft [] (q ∷ qs) cb (node old map) = refl
  callback_at-graft (p ∷ ps) [] cb (node old map) = refl
  callback_at-graft (p ∷ ps) (q ∷ qs) cb (node old map) =
      let below = node_or_new p map in
      callback_at-cons (graft (p ∷ ps) cb (node old map)) q qs
      ∙ (rw (find_node-put_node q p (graft ps cb below) map, callback_at-cons (node old map) q qs)
          (elim (Bool-cases (text_eq p q)) [
            | inl e ↦ rw (
              e,
              callback_at-graft ps qs cb below,
              callback_at-node_or_new p map qs,
              (text_eq_iff p q).0 e,
            )
            | inr e ↦ rw e
          ]))
