-- ===== src/RpcChannel/Due.antt =====
-- What a caller is owed for an answer, as a table, and what an accepted request finds.
use Prim.Native.String.{String}
use proto_rpc.Prelude.{ℕ, ◌≡◌, refl, Option, none, some, List, [], ◌∷◌, ◌++◌, true}
use proto_rpc.Message.{RpcMessage, no_error}
use proto_rpc.RpcChannel.{
  OutstandingCall, Effect, parsed, ran, deleted, Service, answered, run_done, parse_response,
  find_service, request_error, method_error, reply_at_once,
}

-- By the response object and the closure of the call, and the bytes of the answer: the object gets
-- the bytes if there are any, the closure runs, and the object is deleted. A call without an object
-- gets nothing.
unfoldable pub due : Option ℕ → Option ℕ → List ℕ → List Effect
due none c bytes = []
due (some object) none [] = deleted object ∷ []
due (some object) none (b ∷ bytes) = parsed object (b ∷ bytes) ∷ deleted object ∷ []
due (some object) (some closure) [] = ran closure ∷ deleted object ∷ []
due (some object) (some closure) (b ∷ bytes) =
    parsed object (b ∷ bytes) ∷ ran closure ∷ deleted object ∷ []

pub answered-due :
    (out : OutstandingCall) (bytes : List ℕ)
    → answered out bytes ≡ due out.response_object out.done bytes
unfolding answered due run_done parse_response
answered-due out bytes = by_fields out.response_object out.done bytes
  where
    by_fields :
        (o c : Option ℕ) (bytes : List ℕ)
        → ◌≡◌ {A = List Effect}
            (elim o [
              | none ↦ []
              | some object ↦ parse_response object bytes ++ (run_done c ++ (deleted object ∷ []))
            ])
            (due o c bytes)
    by_fields none c bytes = refl
    by_fields (some o) none [] = refl
    by_fields (some o) none (b ∷ bytes) = refl
    by_fields (some o) (some c) [] = refl
    by_fields (some o) (some c) (b ∷ bytes) = refl

pub no-request_error :
    (m : RpcMessage) (service : Service) (services : List (String × Service))
    → find_service m.service services ≡ some service
    → service.has_method m.method ≡ true
    → service.parses m.method m.request_bytes ≡ true
    → request_error m (some services) ≡ no_error
unfolding request_error method_error
no-request_error m service services f h p = rw (f, request_error, h, p, method_error) refl

pub reply_at_once-service :
    (m : RpcMessage) (service : Service) (services : List (String × Service))
    → find_service m.service services ≡ some service
    → reply_at_once m (some services) ≡ service.at_once m.method m.request_bytes
unfolding reply_at_once
reply_at_once-service m service services f = rw (f, reply_at_once) refl
