-- ===== src/RpcChannel/RoundTrip.antt =====
-- A call from end to end: the caller's frame, the service call on the other side, the answer's
-- frame, and the closure that the caller gave; and the same where the callee refuses the request.
use Prim.Native.String.{String}
use proto_rpc.Prelude.{
  ℕ, ◌^◌, ◌<◌, ◌≡◌, ◌≢◌, refl, ap, ◌∙◌, Option, none, some, Bool, true, false, if◌then◌else◌,
  append-nil, List, [], ◌∷◌, ◌++◌, arith, ==_refl, ◌>>=◌,
}
use proto_rpc.Message.{RpcMessage, empty_message, response, ErrorCode, no_error}
use proto_rpc.Buffer.{Buffer}
use proto_rpc.Buffer.View.{IsValid, contents}
use proto_rpc.RpcCodec.{Wire}
use proto_rpc.RpcCodec.Frame.{frame, IsSendable}
use proto_rpc.RpcCodec.Send.{send_lem}
use proto_rpc.RpcCodec.Stream.{seen}
use proto_rpc.RpcCodec.Sequence.{on_message-frame}
use proto_rpc.RpcChannel.{
  RpcChannel, OutstandingCall, send, request_message, call_method, handle_response_msg, answered,
  request_error, error_message, handle_request_msg, dispatch, on_rpc_message, on_message,
  done_callback, call_of, finish_request, response_message, Service, ServiceCall, find_service,
  reply_at_once, run_at_once,
}
use proto_rpc.StdMap.{find, assign, erase, find-assign, erase-assign}
use proto_rpc.RpcChannel.Due.{due, answered-due, no-request_error, reply_at_once-service}
use proto_rpc.RpcChannel.Calls.{next_id, Issued, next_id-fresh, handle_response_msg-found}

-- What a service that answers within the call has sent when `CallMethod` returns.
abbrev pub sent_early : Bool → List ℕ → List (List ℕ)
sent_early true bytes = bytes ∷ []
sent_early false bytes = []

module _ (w : Wire) where
  send-frame :
      (m : RpcMessage) (ch : RpcChannel)
      → IsSendable w m
      → send w m ch ≡ some (record ch { sent = ch.sent ++ (frame w m ∷ []) })
  unfolding send
  send-frame m ch a = rw (send_lem w m (omega (arith, a.limit)))

  -- What a peer does with a frame that fills its input buffer.
  pub receive :
      (m : RpcMessage) (ch : RpcChannel) (b : Buffer)
      → IsSendable w m
      → IsValid b
      → contents b ≡ frame w m
      → seen (on_rpc_message w ch.conn) (on_message w ch.conn ch b)
        ≡ (dispatch w m.type m ch >>= λ ch'. some (ch', []))
  unfolding on_message on_rpc_message
  receive m ch b a v c =
      on_message-frame w (on_rpc_message w ch.conn) ch m b v a c ∙ rw (==_refl ch.conn)

  -- The caller after a call, and after its answer.
  abbrev pub caller_after : String → String → List ℕ → OutstandingCall → RpcChannel → RpcChannel
  caller_after service method bytes out ch = record ch {
    id = next_id ch;
    outstandings = assign (next_id ch) out ch.outstandings;
    sent = ch.sent ++ (frame w (request_message (next_id ch) service method bytes) ∷ []);
  }

  pub call_method_lem :
      (service method : String) (bytes : List ℕ) (out : OutstandingCall) (ch : RpcChannel)
      → IsSendable w (request_message (next_id ch) service method bytes)
      → call_method w service method bytes out ch ≡ some (caller_after service method bytes out ch)
  unfolding call_method
  call_method_lem service method bytes out ch a =
      send-frame (request_message (next_id ch) service method bytes)
        (record ch { id = next_id ch; outstandings = assign (next_id ch) out ch.outstandings }) a

  -- The answer to a fresh call takes it from the waiting ones and runs its effects.
  answer_taken :
      {start n : ℕ} (service method : String) (bytes : List ℕ) (out : OutstandingCall)
      (ch : RpcChannel) (m : RpcMessage)
      → Issued start n ch
      → n < 2 ^ 64
      → m.id ≡ next_id ch
      → handle_response_msg m (caller_after service method bytes out ch)
        ≡ record (caller_after service method bytes out ch) {
          outstandings = ch.outstandings;
          effects = ch.effects ++ answered out m.response_bytes;
        }
  answer_taken service method bytes out ch m v b e =
      handle_response_msg-found w m (caller_after service method bytes out ch) out found
      ∙ rw restored
    where
      restored : erase m.id (assign (next_id ch) out ch.outstandings) ≡ ch.outstandings
      restored =
          ap (λ k. erase k (assign (next_id ch) out ch.outstandings)) e
          ∙ erase-assign (next_id ch) out ch.outstandings (next_id-fresh ch v b)

      found : find m.id (assign (next_id ch) out ch.outstandings) ≡ some out
      found =
          ap (λ k. find k (assign (next_id ch) out ch.outstandings)) e
          ∙ find-assign (next_id ch) (next_id ch) out ch.outstandings
          ∙ rw (==_refl (next_id ch))

  -- The caller takes an answer in a frame: `m` has the id of its last call.
  receive_answer :
      {start n : ℕ} (service method : String) (bytes : List ℕ) (out : OutstandingCall)
      (ch : RpcChannel) (m : RpcMessage) (buf : Buffer)
      → Issued start n ch
      → n < 2 ^ 64
      → m.id ≡ next_id ch
      → m.type ≡ response
      → IsSendable w m
      → IsValid buf
      → contents buf ≡ frame w m
      → let after = caller_after service method bytes out ch in
        seen (on_rpc_message w ch.conn) (on_message w ch.conn after buf)
        ≡ some (
          record after {
            outstandings = ch.outstandings;
            effects = ch.effects ++ answered out m.response_bytes;
          },
          [],
        )
  unfolding dispatch
  receive_answer service method bytes out ch m buf v b e t a vb c =
      receive m (caller_after service method bytes out ch) buf a vb c
      ∙ simp t (ap (λ o. some (o, [])) (answer_taken service method bytes out ch m v b e))

  refused :
      (error : ErrorCode) (ch : RpcChannel) (id : ℕ) (m : RpcMessage)
      → m.id ≡ id
      → error ≢ no_error
      → IsSendable w (error_message id error)
      → (reply : Option (List ℕ))
      → finish_request w error reply m ch
        ≡ some (record ch { sent = ch.sent ++ (frame w (error_message id error) ∷ []) })
  unfolding finish_request
  refused no_error ch id m e ne a reply = absurd (ne refl)
  refused error ch id m e ne a reply = rw e (send-frame (error_message id error) ch a)

  -- A request that a service accepts, and that it answers within the call if `early`.
  pub accepted :
      (early : Bool) (reply : List ℕ) (m : RpcMessage) (service : Service)
      (services : List (String × Service)) (ch : RpcChannel)
      → ch.services ≡ some services
      → find_service m.service services ≡ some service
      → service.has_method m.method ≡ true
      → service.parses m.method m.request_bytes ≡ true
      → service.at_once m.method m.request_bytes ≡ (if early then some reply else none)
      → IsSendable w (response_message m.id reply)
      → handle_request_msg w m ch
        ≡ some (record ch {
          calls = ch.calls ++ (call_of m ∷ []);
          sent = ch.sent ++ sent_early early (frame w (response_message m.id reply));
        })
  unfolding handle_request_msg finish_request run_at_once done_callback
  accepted early reply m service services ch s f h p now a =
      ap (λ o. finish_request w (request_error m o) (reply_at_once m o) m ch) s
      ∙ ap (λ e. finish_request w e (reply_at_once m (some services)) m ch)
          (no-request_error m service services f h p)
      ∙ ap (λ r. finish_request w no_error r m ch)
          (reply_at_once-service m service services f ∙ now)
      ∙ by_time early
    where
      by_time :
          (early : Bool)
          → finish_request w no_error (if early then some reply else none) m ch
            ≡ some (record ch {
              calls = ch.calls ++ (call_of m ∷ []);
              sent = ch.sent ++ sent_early early (frame w (response_message m.id reply));
            })
      by_time false = rw (append-nil ch.sent) refl
      by_time true =
          send-frame (response_message m.id reply)
            (record ch { calls = ch.calls ++ (call_of m ∷ []) }) a

  -- A call of `service.method` with `bytes`.
  module _ {start n : ℕ} (service method : String) (bytes reply : List ℕ) (out : OutstandingCall)
      (caller callee : RpcChannel) (asked answer : Buffer) where
    -- A call that the other side accepts, from end to end, whether its service answers within the
    -- call or later. If the calls that wait on the caller's channel have ids that it gave out,
    -- each once, it gave out fewer than 2^64, protobuf reads back the request and the answer, both
    -- frames keep the limit, the callee has the service, the service the method, and the method
    -- parses the bytes, and each side's valid buffer holds just the frame: `CallMethod` sends one
    -- frame; from it the callee calls the service once, with the names, the id and the bytes of
    -- the request, and sends the frame of the answer if the service answers within the call, and
    -- nothing otherwise; `doneCallback` sends that frame when it runs later; from it the caller's
    -- response object gets the bytes of the answer, if any, the closure runs, the response object
    -- is deleted (a call without one gets nothing), and the channel forgets the call.
    pub call-answer :
        (early : Bool) (target : Service) (services : List (String × Service))
        → let id = next_id caller in
          let req = request_message id service method bytes in
          let resp = response_message id reply in
          let after = caller_after service method bytes out caller in
          let called : ServiceCall = record {
            service_name = service;
            method_name = method;
            argument = bytes;
            call_id = id;
          } in
          let served = record callee {
            calls = callee.calls ++ (called ∷ []);
            sent = callee.sent ++ sent_early early (frame w resp);
          } in
          Issued start n caller
          → n < 2 ^ 64
          → IsSendable w req
          → IsSendable w resp
          → callee.services ≡ some services
          → find_service service services ≡ some target
          → target.has_method method ≡ true
          → target.parses method bytes ≡ true
          → target.at_once method bytes ≡ (if early then some reply else none)
          → IsValid asked
          → contents asked ≡ frame w req
          → IsValid answer
          → contents answer ≡ frame w resp
          → (call_method w service method bytes out caller ≡ some after)
            × (seen (on_rpc_message w callee.conn) (on_message w callee.conn callee asked)
                ≡ some (served, []))
            × (done_callback w reply id served
                ≡ some (record served { sent = served.sent ++ (frame w resp ∷ []) }))
            × (seen (on_rpc_message w caller.conn) (on_message w caller.conn after answer)
                ≡ some (
                  record after {
                    outstandings = caller.outstandings;
                    effects = caller.effects ++ due out.response_object out.done reply;
                  },
                  [],
                ))
    unfolding dispatch done_callback request_message call_of response_message
    call-answer early target services v b sends answers sv f h p now va ca vb cb = (
      call_method_lem service method bytes out caller sends,
      receive req callee asked sends va ca
          ∙ ap (λ o. o >>= λ ch'. some (ch', []))
              (accepted early reply req target services callee sv f h p now answers),
      send-frame resp
          (record callee {
            calls = callee.calls ++ (call_of req ∷ []);
            sent = callee.sent ++ sent_early early (frame w resp);
          })
          answers,
      receive_answer service method bytes out caller resp answer v b refl refl answers vb cb
          ∙ rw (answered-due out reply) refl,
    )
      where
        req : RpcMessage
        req = request_message (next_id caller) service method bytes

        resp : RpcMessage
        resp = response_message (next_id caller) reply

    -- A call that the other side refuses, for whatever error. If the calls that wait on the
    -- caller's channel have ids that it gave out, each once, it gave out fewer than 2^64, protobuf
    -- reads back the request and the error message, both frames keep the limit, and each side's
    -- valid buffer holds just the frame: the callee sends the frame of a response with the id of
    -- the call, the error, and nothing else, and makes no service call; from that frame the caller
    -- runs the closure and deletes the response object, which gets no bytes (for a call without
    -- one it does nothing), so no effect tells of the error, and it forgets the call.
    pub call-error :
        (error : ErrorCode)
        → let req = request_message (next_id caller) service method bytes in
          let resp : RpcMessage = record empty_message {
            type = response;
            id = next_id caller;
            error = error;
          } in
          let after = caller_after service method bytes out caller in
          Issued start n caller
          → n < 2 ^ 64
          → IsSendable w req
          → IsSendable w resp
          → request_error req callee.services ≡ error
          → error ≢ no_error
          → IsValid asked
          → contents asked ≡ frame w req
          → IsValid answer
          → contents answer ≡ frame w resp
          → (call_method w service method bytes out caller ≡ some after)
            × (seen (on_rpc_message w callee.conn) (on_message w callee.conn callee asked)
                ≡ some (record callee { sent = callee.sent ++ (frame w resp ∷ []) }, []))
            × (seen (on_rpc_message w caller.conn) (on_message w caller.conn after answer)
                ≡ some (
                  record after {
                    outstandings = caller.outstandings;
                    effects = caller.effects ++ due out.response_object out.done [];
                  },
                  [],
                ))
    unfolding dispatch handle_request_msg request_message error_message
    call-error error v b sends answers bad ne va ca vb cb = (
      call_method_lem service method bytes out caller sends,
      receive req callee asked sends va ca
          ∙ rw (
            bad,
            refused error callee (next_id caller) req refl ne answers
                (reply_at_once req callee.services),
          ),
      receive_answer service method bytes out caller resp answer v b refl refl answers vb cb
          ∙ rw (answered-due out []) refl,
    )
      where
        req : RpcMessage
        req = request_message (next_id caller) service method bytes

        resp : RpcMessage
        resp = error_message (next_id caller) error
