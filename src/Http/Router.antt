-- ===== src/Http/Router.antt =====
-- src/wrappers/http/router.hpp, request_handler.hpp and request_handler.cpp: the tree of routes.
-- A callback is a value of any type; to call one is the result `call`. `dynamic_ptr` is never set by
-- the program and is left out. `url_decode`, which nothing calls, is in Decoding.
pub mod Paths
pub mod Trees
pub mod Dispatch
pub mod Separator
pub mod Decoding
use clean_architecture_cpp.Base.{
  ℕ, zero, suc, ◌+◌, ◌-◌, Bool, true, false, ◌==◌, if◌then◌else◌, Option, none, some, List, [], ◌∷◌,
  Text, codes, length, text_eq, find, substr, substr_from, starts_with, Throws, ret, throw,
  out_of_fuel, ◌>>=◌,
}
use clean_architecture_cpp.Http.Message.{Request, Response}

pub record Router (C : Type 0) : Type 0 where
  pub method : Text
  pub path : Text
  pub cb : C

-- `none` is the null callback.
mutual
  pub data RouterNode (C : Type 0) : Type 0 where
    node : Option C → Nodes C → RouterNode C

  pub data Nodes (C : Type 0) : Type 0 where
    nil : Nodes C
    entry : Text → RouterNode C → Nodes C → Nodes C

module _ {C : Type 0} where
  abbrev pub callback : RouterNode C → Option C
  callback (node cb map) = cb

  abbrev pub nodes : RouterNode C → Nodes C
  nodes (node cb map) = map

  abbrev pub set_callback : C → RouterNode C → RouterNode C
  set_callback cb (node old map) = node (some cb) map

  abbrev pub set_nodes : Nodes C → RouterNode C → RouterNode C
  set_nodes map (node cb old) = node cb map

  -- `std::make_unique<router_node>()`
  abbrev pub empty_node : RouterNode C
  empty_node = node none nil

  unfoldable pub find_node : Text → Nodes C → Option (RouterNode C)
  find_node k nil = none
  find_node k (entry j n map) = if text_eq j k then some n else find_node k map

  -- The node under a key, made if it is missing.
  unfoldable pub node_or_new : Text → Nodes C → RouterNode C
  node_or_new k nil = empty_node
  node_or_new k (entry j n map) = if text_eq j k then n else node_or_new k map

  unfoldable pub put_node : Text → RouterNode C → Nodes C → Nodes C
  put_node k m nil = entry k m nil
  put_node k m (entry j n map) = if text_eq j k then entry j m map else entry j n (put_node k m map)

  -- The loop of the constructor over one path, from `start_cursor`, and the leaf behind it.
  unfoldable pub add_from : ℕ → Text → ℕ → C → RouterNode C → Throws (RouterNode C)
  add_from zero path start_cursor cb ptr = throw out_of_fuel
  add_from (suc fuel) path start_cursor cb ptr = elim (find path b'/' start_cursor) [
    | some end_cursor ↦ do
      piece ← substr path start_cursor (end_cursor - start_cursor)
      below ← add_from fuel path (end_cursor + 1) cb (node_or_new piece (nodes ptr))
      ret (set_nodes (put_node piece below (nodes ptr)) ptr)
    | none ↦ do
      piece ← substr_from path start_cursor
      ret (
          set_nodes (put_node piece (set_callback cb (node_or_new piece (nodes ptr))) (nodes ptr))
            ptr)
  ]

  -- One round of the constructor's loop over the routers.
  unfoldable pub add_router : Router C → Nodes C → Throws (Nodes C)
  add_router rtr map =
      let ptr = node_or_new rtr.method map in
      if text_eq rtr.path (codes "/")
      then ret (put_node rtr.method (set_callback rtr.cb ptr) map)
      else (do
        ptr' ← add_from (length rtr.path + 1) rtr.path 1 rtr.cb ptr
        ret (put_node rtr.method ptr' map))

  unfoldable pub add_routers : List (Router C) → Nodes C → Throws (Nodes C)
  add_routers [] map = ret map
  add_routers (rtr ∷ routers) map = do map' ← add_router rtr map; add_routers routers map'

pub record RequestHandler (C : Type 0) : Type 0 where
  pub base_path : Text
  pub map : Nodes C

-- What `handle_request` does last: it calls a callback, or it leaves a response.
pub data Dispatched (C : Type 0) : Type 0 where
  call : C → Dispatched C
  respond : Response → Dispatched C

abbrev pub not_found : Response → Response
not_found res = record res { status = 404 }

-- `req->uri.substr(0, req->uri.find('?'))`
unfoldable pub request_path : Request → Throws Text
request_path req = elim (find req.uri b'?' 0) [
  | some end ↦ substr req.uri 0 end
  | none ↦ substr req.uri 0 (length req.uri)
]

module _ {C : Type 0} where
  -- The constructor of `request_handler`.
  unfoldable pub make_request_handler : List (Router C) → Text → Throws (RequestHandler C)
  make_request_handler routers base_path = do
    map ← add_routers routers nil
    ret (record { base_path = base_path; map = map })

  -- The loop of `handle_request` and the look-up of the last piece; `none` is a missing node.
  unfoldable pub walk : ℕ → Text → ℕ → RouterNode C → Throws (Option (RouterNode C))
  walk zero path start_cursor n = throw out_of_fuel
  walk (suc fuel) path start_cursor n = elim (find path b'/' start_cursor) [
    | some end_cursor ↦ do
      piece ← substr path start_cursor (end_cursor - start_cursor)
      elim (find_node piece (nodes n)) [
        | none ↦ ret none
        | some below ↦ walk fuel path (end_cursor + 1) below
      ]
    | none ↦ do piece ← substr_from path start_cursor; ret (find_node piece (nodes n))
  ]

  abbrev pub answer : Response → Option C → Dispatched C
  answer res none = respond (not_found res)
  answer res (some cb) = call cb

  abbrev pub answer_node : Response → Option (RouterNode C) → Dispatched C
  answer_node res none = respond (not_found res)
  answer_node res (some n) = answer res (callback n)

  unfoldable pub dispatch_in : Text → Text → RouterNode C → Response → Throws (Dispatched C)
  dispatch_in base_path path n res =
      if length path == length base_path then ret (answer res (callback n)) else (do
        found ← walk (length path + 1) path (length base_path + 1) n
        ret (answer_node res found))

  unfoldable pub handle_request : RequestHandler C → Request → Response → Throws (Dispatched C)
  unfolding dispatch_in
  handle_request handler req res = do
    path ← request_path req
    if starts_with path handler.base_path
        then elim (find_node req.method handler.map) [
          | none ↦ ret (respond (not_found res))
          | some n ↦ dispatch_in handler.base_path path n res
        ]
        else ret (respond (not_found res))
