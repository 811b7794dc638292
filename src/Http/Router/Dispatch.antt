-- ===== src/Http/Router/Dispatch.antt =====
-- request_handler.cpp: the tree of routes answers as the list of routes that it was made of.
use clean_architecture_cpp.Base.{
  ◌+◌, ◌≤◌, ◌≡◌, refl, ◌∙◌, ap, Bool, true, false, ◌&&◌, ◌==◌, if◌then◌else◌, Bool-cases, Option,
  none, some, Option-cases, inl, inr, List, [], ◌∷◌, Text, codes, length, drop, split, find_cases,
  substr, substr_whole, subst, text_eq, text_eq_iff, texts_eq, is_empty, starts_with, All, ret,
  ◌>>=◌, arith,
}
use clean_architecture_cpp.Http.Message.{Request, Response}
use clean_architecture_cpp.Http.Router.{
  Router, RouterNode, Nodes, nil, find_node, node_or_new, put_node, add_router, add_routers, answer,
  answer_node, request_path, dispatch_in, make_request_handler, handle_request,
}
use clean_architecture_cpp.Http.Router.Paths.{descend, graft, walk-descend, add_from-graft}
use clean_architecture_cpp.Http.Router.Trees.{
  callback_of, callback_at, callback_at-graft, find_node-put_node, node_or_new-find_node,
  callback_at-empty_node,
}

-- The pieces of a route: none for "/", and else those behind the first byte.
unfoldable pub route_pieces : Text → List Text
route_pieces path = if text_eq path (codes "/") then [] else split b'/' (drop 1 path)

-- The pieces of a request's path behind the base path; the byte behind the base is not looked at.
unfoldable pub request_pieces : Text → Text → Option (List Text)
request_pieces base path =
    if starts_with path base
    then (if length path == length base
        then some []
        else some (split b'/' (drop (length base + 1) path)))
    else none

nonempty_length : (s : Text) → is_empty s ≡ false → 1 ≤ length s
nonempty_length [] h = absurd (cc)
nonempty_length (c ∷ s) h = omega arith

-- The part of a target before its first question mark.
abbrev first_piece : List Text → Text
first_piece [] = []
first_piece (p ∷ pieces) = p

unfoldable pub before_query : Text → Text
before_query uri = first_piece (split b'?' uri)

request_path-before_query : (req : Request) → request_path req ≡ ret (before_query req.uri)
unfolding request_path before_query
request_path-before_query req = elim (find_cases b'?' req.uri 0 (omega arith)) [
  | inl (e, s, p) ↦ rw (e, request_path, p) (substr_whole req.uri)
  | inr (end, piece, (e, s, p, le, lt)) ↦
      rw (e, request_path, p) (subst (λ k. substr req.uri 0 k ≡ ret piece) (omega arith) s)
]

starts_with-length : (s p : Text) → starts_with s p ≡ true → length p ≤ length s
unfolding starts_with
starts_with-length s [] h = omega arith
starts_with-length [] (b ∷ p) h = absurd (cc)
starts_with-length (a ∷ s) (b ∷ p) h = ground (arith, starts_with-length s p)

module _ {C : Type 0} where
  unfoldable pub fits : Text → List Text → Router C → Bool
  unfolding route_pieces
  fits method pieces r = text_eq r.method method && texts_eq (route_pieces r.path) pieces

  -- The callback of the last router that fits, or the one that was there before.
  unfoldable pub last_fit : Text → List Text → List (Router C) → Option C → Option C
  last_fit method pieces [] before = before
  last_fit method pieces (r ∷ routers) before =
      last_fit method pieces routers (if fits method pieces r then some r.cb else before)

  abbrev pub found_at : Option (RouterNode C) → List Text → Option C
  found_at none pieces = none
  found_at (some n) pieces = callback_at n pieces

  add_router-graft :
      (r : Router C) (map : Nodes C)
      → is_empty r.path ≡ false
      → add_router r map
        ≡ ret (put_node r.method (graft (route_pieces r.path) r.cb (node_or_new r.method map)) map)
  unfolding add_router route_pieces graft
  add_router-graft r map h = elim (Bool-cases (text_eq r.path (codes "/"))) [
    | inl e ↦ rw e
    | inr e ↦ rw (
      e,
      add_from-graft (length r.path + 1) r.path 1 r.cb (node_or_new r.method map)
          (nonempty_length r.path h) (omega arith),
    )
  ]

  found_at-put_node :
      (method m : Text) (pieces ps : List Text) (cb : C) (map : Nodes C)
      → found_at (find_node method (put_node m (graft ps cb (node_or_new m map)) map)) pieces ≡ (
          if text_eq m method && texts_eq ps pieces
          then some cb
          else found_at (find_node method map) pieces)
  found_at-put_node method m pieces ps cb map =
      rw (find_node-put_node method m (graft ps cb (node_or_new m map)) map)
        (elim (Bool-cases (text_eq m method)) [
          | inl e ↦
              rw
                (
                  e,
                  callback_at-graft ps pieces cb (node_or_new m map),
                  node_or_new-find_node m map,
                  (text_eq_iff m method).0 e,
                )
                (elim (Option-cases (find_node method map)) [
                  | inl o ↦ rw (o, callback_at-empty_node pieces)
                  | inr (n, o) ↦ rw o
                ])
          | inr e ↦ rw e
        ])

  add_routers-last_fit :
      (method : Text) (pieces : List Text) (routers : List (Router C)) (map : Nodes C)
      → All (λ r. is_empty r.path ≡ false) routers
      → (map' : Nodes C) × (add_routers routers map ≡ ret map')
        × (found_at (find_node method map') pieces
            ≡ last_fit method pieces routers (found_at (find_node method map) pieces))
  unfolding add_routers last_fit fits
  add_routers-last_fit method pieces [] map h = (map, refl, refl)
  add_routers-last_fit method pieces (r ∷ routers) map (p, h) =
      let next =
        put_node r.method (graft (route_pieces r.path) r.cb (node_or_new r.method map)) map in
      let (map', made, found) = add_routers-last_fit method pieces routers next h in
      (
        map',
        rw (add_router-graft r map p) made,
        found
            ∙ ap (last_fit method pieces routers)
                (found_at-put_node method r.method pieces (route_pieces r.path) r.cb map),
      )

  answer_node-callback_of :
      (res : Response) (o : Option (RouterNode C)) → answer_node res o ≡ answer res (callback_of o)
  answer_node-callback_of res none = refl
  answer_node-callback_of res (some n) = refl

  -- What the routes themselves say to a request.
  unfoldable pub routed : List (Router C) → Text → Request → Option C
  routed routers base req = elim (request_pieces base (before_query req.uri)) [
    | none ↦ none
    | some pieces ↦ last_fit req.method pieces routers none
  ]

  dispatch_in-callback_at :
      (base path : Text) (n : RouterNode C) (res : Response) (pieces : List Text)
      → starts_with path base ≡ true
      → request_pieces base path ≡ some pieces
      → dispatch_in base path n res ≡ ret (answer res (callback_at n pieces))
  unfolding dispatch_in request_pieces callback_at descend
  dispatch_in-callback_at base path n res pieces h e =
      elim (Bool-cases (length path == length base)) [
        | inl same ↦ ground arith
        | inr other ↦
            let le : length base ≤ length path = starts_with-length path base h in
            let lt : length base + 1 ≤ length path = ground arith in
            ground (
              arith,
              walk-descend (length path + 1) path (length base + 1) n lt (omega arith),
              answer_node-callback_of res (descend n pieces),
            )
      ]

  pub handle_request-found_at :
      (base : Text) (map : Nodes C) (req : Request) (res : Response) (pieces : List Text)
      → request_pieces base (before_query req.uri) ≡ some pieces
      → handle_request (record { base_path = base; map = map }) req res
        ≡ ret (answer res (found_at (find_node req.method map) pieces))
  unfolding handle_request request_pieces
  handle_request-found_at base map req res pieces e =
      rw (request_path-before_query req)
        (elim (Bool-cases (starts_with (before_query req.uri) base)) [
          | inl st ↦ elim (Option-cases (find_node req.method map)) [
            | inl o ↦ ground arith
            | inr (n, o) ↦
                ground
                  (arith, dispatch_in-callback_at base (before_query req.uri) n res pieces st e)
          ]
          | inr st ↦ absurd (ground arith)
        ])

  pub handle_request-outside :
      (base : Text) (map : Nodes C) (req : Request) (res : Response)
      → request_pieces base (before_query req.uri) ≡ none
      → handle_request (record { base_path = base; map = map }) req res ≡ ret (answer res none)
  unfolding handle_request request_pieces
  handle_request-outside base map req res e = rw (request_path-before_query req) (ground arith)

  -- The server answers a request by the last of its routes with the request's method and with the
  -- pieces of the request's path, and by the status 404 if there is none. Neither the making of the
  -- tree nor the look-up throws, if no route has an empty path.
  pub handle_request-routed :
      (routers : List (Router C)) (base : Text) (req : Request) (res : Response)
      → All (λ r. is_empty r.path ≡ false) routers
      → (make_request_handler routers base >>= λ h. handle_request h req res)
        ≡ ret (answer res (routed routers base req))
  unfolding make_request_handler routed find_node
  handle_request-routed routers base req res h =
      elim (Option-cases (request_pieces base (before_query req.uri))) [
        | inl e ↦
            let (map', made, found) = add_routers-last_fit req.method [] routers nil h in
            rw (e, routed, made) (handle_request-outside base map' req res e)
        | inr (pieces, e) ↦
            let (map', made, found) = add_routers-last_fit req.method pieces routers nil h in
            rw (e, routed, made)
              (handle_request-found_at base map' req res pieces e
                ∙ ap (λ o. ret (answer res o)) found)
      ]
