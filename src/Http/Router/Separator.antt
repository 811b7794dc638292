-- ===== src/Http/Router/Separator.antt =====
-- request_handler.cpp: the byte between the base path and the rest of a path is skipped unread.
use clean_architecture_cpp.Base.{
  ℕ, suc, ◌+◌, ◌≡◌, refl, sym, ◌∙◌, ap, true, some, [], ◌∷◌, ◌++◌, Text, length, length-append,
  drop, split, starts_with, ==_refl, arith,
}
use clean_architecture_cpp.Http.Message.{Request, Response}
use clean_architecture_cpp.Http.Router.{RequestHandler, handle_request}
use clean_architecture_cpp.Http.Router.Dispatch.{
  request_pieces, before_query, handle_request-found_at,
}

starts_with-append : (base s : Text) → starts_with (base ++ s) base ≡ true
unfolding starts_with
starts_with-append [] [] = refl
starts_with-append [] (c ∷ s) = refl
starts_with-append (b ∷ base) s = rw (==_refl b) (starts_with-append base s)

drop-separator : (base p : Text) (c : ℕ) → drop (length base + 1) (base ++ c ∷ p) ≡ p
drop-separator [] p c = refl
drop-separator (b ∷ base) p c =
    ap {B = Text} (λ k. drop k (b ∷ (base ++ c ∷ p))) {x = suc (length base) + 1}
      {y = suc (length base + 1)} (omega arith)
    ∙ drop-separator base p c

pub request_pieces-separator :
    (base p : Text) (c : ℕ) → request_pieces base (base ++ c ∷ p) ≡ some (split b'/' p)
unfolding request_pieces
request_pieces-separator base p c =
    rw (starts_with-append base (c ∷ p), drop-separator base p c)
      (ground (arith, length-append base (c ∷ p)))

-- Two requests of one method whose paths differ only in the byte behind the base path are answered
-- alike, whichever those two bytes are.
pub handle_request-separator :
    {C : Type 0} (handler : RequestHandler C) (one two : Request) (res : Response) (p : Text)
    (c d : ℕ)
    → one.method ≡ two.method
    → before_query one.uri ≡ handler.base_path ++ c ∷ p
    → before_query two.uri ≡ handler.base_path ++ d ∷ p
    → handle_request handler one res ≡ handle_request handler two res
handle_request-separator handler one two res p c d m e f =
    let base = handler.base_path in
    handle_request-found_at base handler.map one res (split b'/' p)
      (rw e (request_pieces-separator base p c))
    ∙ (rw m (
        sym (
          handle_request-found_at base handler.map two res (split b'/' p)
            (rw f (request_pieces-separator base p d)))))
