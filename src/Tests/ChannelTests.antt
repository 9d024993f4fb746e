-- ===== src/Tests/ChannelTests.antt =====
-- A call of `echo.say` between two channels with the test wire.
use proto_rpc.Prelude.{
  sym, subst, ◌∙◌, total, ◌+◌, ◌≡◌, refl, [], ◌∷◌, none, some, arith, true, false, ◌≤◌, length,
  max_size,
}
use proto_rpc.Message.{no_method}
use proto_rpc.Buffer.{Buffer}
use proto_rpc.RpcCodec.Frame.{IsSendable, frame, length-frame}
use proto_rpc.RpcCodec.Stream.{seen}
use proto_rpc.StdMap.{find, assign, erase}
use proto_rpc.RpcChannel.{
  RpcChannel, OutstandingCall, Service, destroy, new_channel, request_message, response_message,
  error_message, request_error, find_service, method_error, call_method, on_rpc_message, on_message,
  done_callback, parsed, ran, deleted, handle_response_msg,
}
use proto_rpc.RpcChannel.Calls.{
  Issued, new_channel-Issued, Reach, here, after, calls, next_id, Reach-fresh,
  handle_response_msg-found,
}
use proto_rpc.RpcChannel.Due.{due, answered-due}
use proto_rpc.RpcChannel.Once.{Later, now, proceeds, answer_once}
use proto_rpc.RpcChannel.Ownership.{deletes, handed, Reach-destroy}
use proto_rpc.RpcChannel.RoundTrip.{caller_after, call_method_lem, call-answer, call-error}
use proto_rpc.Tests.Base.{
  holding, contents-holding, holding-IsValid, test_wire, asking, answering, refusing,
}
use proto_rpc.Tests.CodecTests.{asking-IsSendable, answering-IsSendable, refusing-IsSendable}

abbrev caller : RpcChannel
caller = record {
  conn = 1;
  id = 0;
  outstandings = [];
  services = none;
  sent = [];
  effects = [];
  calls = [];
}

abbrev out : OutstandingCall
out = record { response_object = some 3; done = some 4 }

abbrev called : RpcChannel
called = caller_after test_wire "echo" "say" (5 ∷ 6 ∷ []) out caller

caller-Issued : Issued 0 0 caller
unfolding new_channel
caller-Issued = new_channel-Issued 1 0 (omega arith)

abbrev echo : Service
echo = record {
  has_method = λ name. true;
  parses = λ name bytes. true;
  at_once = λ name bytes. none;
}

abbrev silent : Service
silent = record {
  has_method = λ name. false;
  parses = λ name bytes. true;
  at_once = λ name bytes. none;
}

abbrev callee : Service → RpcChannel
callee service = record caller { conn = 2; services = some (("echo", service) ∷ []) }

-- The service that answers within the call.
abbrev quick : Service
quick = record {
  has_method = λ name. true;
  parses = λ name bytes. true;
  at_once = λ name bytes. some (7 ∷ []);
}

finds : find_service "echo" (("echo", quick) ∷ []) ≡ some quick
unfolding find_service
finds = refl

refuses : request_error asking (callee silent).services ≡ no_method
unfolding request_error find_service method_error request_message
refuses = refl

abbrev asked : Buffer
asked = holding (frame test_wire asking)

abbrev answer : Buffer
answer = holding (frame test_wire answering)

abbrev refusal : Buffer
refusal = holding (frame test_wire refusing)

abbrev served : RpcChannel
served = record (callee quick) {
  calls =
      record { service_name = "echo"; method_name = "say"; argument = 5 ∷ 6 ∷ []; call_id = 1 }
      ∷ [];
  sent = frame test_wire answering ∷ [];
}

asked_fits : 8 + length (frame test_wire asking) ≤ max_size
unfolding request_message
asked_fits = omega (arith, length-frame test_wire asking [])

answer_fits : 8 + length (frame test_wire answering) ≤ max_size
unfolding response_message
answer_fits = omega (arith, length-frame test_wire answering [])

refusal_fits : 8 + length (frame test_wire refusing) ≤ max_size
unfolding error_message
refusal_fits = omega (arith, length-frame test_wire refusing [])

call-answer_example :
    (call_method test_wire "echo" "say" (5 ∷ 6 ∷ []) out caller ≡ some called)
    × (seen (on_rpc_message test_wire 2) (on_message test_wire 2 (callee quick) asked)
        ≡ some (served, []))
    × (done_callback test_wire (7 ∷ []) 1 served
        ≡ some
            (record served { sent = frame test_wire answering ∷ frame test_wire answering ∷ [] }))
    × (seen (on_rpc_message test_wire 1) (on_message test_wire 1 called answer)
        ≡ some (
          record called { outstandings = []; effects = parsed 3 (7 ∷ []) ∷ ran 4 ∷ deleted 3 ∷ [] },
          [],
        ))
unfolding due
call-answer_example =
    call-answer test_wire "echo" "say" (5 ∷ 6 ∷ []) (7 ∷ []) out caller (callee quick) asked answer
      true quick (("echo", quick) ∷ []) caller-Issued (omega arith) asking-IsSendable
      answering-IsSendable refl finds refl refl refl
      (holding-IsValid (frame test_wire asking) asked_fits)
      (contents-holding (frame test_wire asking))
      (holding-IsValid (frame test_wire answering) answer_fits)
      (contents-holding (frame test_wire answering))

call-error_example :
    (call_method test_wire "echo" "say" (5 ∷ 6 ∷ []) out caller ≡ some called)
    × (seen (on_rpc_message test_wire 2) (on_message test_wire 2 (callee silent) asked)
        ≡ some (record (callee silent) { sent = frame test_wire refusing ∷ [] }, []))
    × (seen (on_rpc_message test_wire 1) (on_message test_wire 1 called refusal)
        ≡ some (record called { outstandings = []; effects = ran 4 ∷ deleted 3 ∷ [] }, []))
unfolding due error_message
call-error_example =
    call-error test_wire "echo" "say" (5 ∷ 6 ∷ []) (7 ∷ []) out caller (callee silent) asked refusal
      no_method caller-Issued (omega arith) asking-IsSendable refusing-IsSendable refuses (λ e. cc)
      (holding-IsValid (frame test_wire asking) asked_fits)
      (contents-holding (frame test_wire asking))
      (holding-IsValid (frame test_wire refusing) refusal_fits)
      (contents-holding (frame test_wire refusing))

-- One call was made.
called-Reach : Reach test_wire (new_channel 1 0) 1 called
unfolding new_channel
called-Reach = after here (omega arith) (
    calls "echo" "say" (5 ∷ 6 ∷ []) out
      (call_method_lem test_wire "echo" "say" (5 ∷ 6 ∷ []) out caller asking-IsSendable))

Reach-fresh_example : find (next_id called) called.outstandings ≡ none
Reach-fresh_example = Reach-fresh test_wire 1 0 (omega arith) called-Reach (omega arith)

same_id : refusing.id ≡ answering.id
unfolding error_message response_message
same_id = refl

-- The answer came, and another call was made.
abbrev answered_call : RpcChannel
answered_call = record called {
  outstandings = [];
  effects = parsed 3 (7 ∷ []) ∷ ran 4 ∷ deleted 3 ∷ [];
}

waits : find answering.id called.outstandings ≡ some out
unfolding find assign response_message
waits = refl

called-answered_call : handle_response_msg answering called ≡ answered_call
unfolding find assign erase due response_message
called-answered_call =
    handle_response_msg-found test_wire answering called out refl
    ∙ rw (answered-due out (7 ∷ [])) refl

second_call-IsSendable : IsSendable test_wire (request_message 2 "echo" "say" (8 ∷ []))
unfolding request_message
second_call-IsSendable = record { round_trip = refl; limit = omega arith }

abbrev called_again : RpcChannel
called_again = caller_after test_wire "echo" "say" (8 ∷ []) out answered_call

called_again-Later : Later test_wire 1 (handle_response_msg answering called) 2 called_again
called_again-Later =
    subst (λ c. Later test_wire 1 c 2 called_again) (sym called-answered_call)
      (proceeds now (omega arith) (
        calls "echo" "say" (8 ∷ []) out (
          call_method_lem test_wire "echo" "say" (8 ∷ []) out answered_call
            second_call-IsSendable)))

answer_once_example : handle_response_msg refusing called_again ≡ called_again
answer_once_example =
    answer_once test_wire 1 0 answering refusing out (omega arith) called-Reach waits
      called_again-Later same_id

-- The answer did not come before the destructor.
Reach-destroy_example :
    (total (deletes 3) called.effects ≤ handed 3 test_wire called-Reach)
    × (total (deletes 3) (destroy called) ≡ handed 3 test_wire called-Reach)
Reach-destroy_example = Reach-destroy 3 test_wire 1 0 (omega arith) called-Reach
