-- ===== src/RpcServer/Requests.antt =====
-- A request that arrives at a server, from the bytes that are read to the service.
use Prim.Native.String.{String}
use text.Mathlib.Text.{◌==◌ as str_eq}
use text.Mathlib.TextPositions.{eq_refl}
use proto_rpc.Prelude.{
  Bool, if◌then◌else◌, ℕ, ◌+◌, ◌≤◌, ◌≡◌, refl, ap, ◌∙◌, true, Option, none, some, List, [], ◌∷◌,
  ◌++◌, ◌>>=◌, arith, Bool-cases, inl, inr, length, ==_refl, max_size,
}
use proto_rpc.StdMap.{assign, find-assign}
use proto_rpc.Message.{RpcMessage}
use proto_rpc.Buffer.{Buffer, initial_size, extra_size}
use proto_rpc.Buffer.View.{IsValid, contents, length-contents}
use proto_rpc.Buffer.Space.{new_buffer_lem}
use proto_rpc.Buffer.Read.{read_fd_lem}
use proto_rpc.RpcCodec.{Wire}
use proto_rpc.RpcCodec.Frame.{frame, IsSendable}
use proto_rpc.RpcCodec.Stream.{seen}
use proto_rpc.RpcChannel.{
  RpcChannel, Service, ServiceCall, response_message, find_service, new_channel, set_services,
  request_message, on_message, on_rpc_message, dispatch, call_of,
}
use proto_rpc.RpcChannel.RoundTrip.{receive, accepted, sent_early}
use proto_rpc.RpcServer.{
  Peer, RpcServer, assign_service, register_service, on_connection, peer_up, peer_reads, on_peer,
  server_message,
}

find-assign_service :
    (name : String) (service : Service) (m : List (String × Service))
    → str_eq name name ≡ true
    → find_service name (assign_service name service m) ≡ some service
unfolding find_service assign_service
find-assign_service name service [] h = rw h refl
find-assign_service name service ((n, s) ∷ m) h = elim (Bool-cases (str_eq n name)) [
  | inl e ↦ rw (e, e) refl
  | inr e ↦ rw (e, e) (find-assign_service name service m h)
]

-- What a run that was seen is.
seen-some :
    (callback : RpcMessage → RpcChannel → Option RpcChannel) (o : Option (RpcChannel × Buffer))
    (ch : RpcChannel) (bytes : List ℕ)
    → seen callback o ≡ some (ch, bytes)
    → (b : Buffer) × (o ≡ some (ch, b)) × (contents b ≡ bytes)
seen-some callback none ch bytes e = cc
seen-some callback (some (ch', b)) ch bytes e = (b, cc, cc)

module _ (w : Wire) where
  -- A connection with nothing in its buffer gets a frame.
  peer_reads-frame :
      (m : RpcMessage) (services : List (String × Service)) (ch ch' : RpcChannel) (p : Peer)
      → p.context ≡ some ch
      → IsValid p.input
      → contents p.input ≡ []
      → p.input.writer_index + length (frame w m) ≤ max_size
      → length (frame w m) ≤ extra_size
      → IsSendable w m
      → dispatch w m.type m (set_services services ch) ≡ some ch'
      → (b : Buffer) × (peer_reads w (set_services services ch).conn services (frame w m) p
          ≡ some (record p { context = some ch'; input = b }))
        × (contents b ≡ [])
  unfolding peer_reads
  peer_reads-frame m services ch ch' p c v empty fits room a d =
      let (b, read, vb, cb) = read_fd_lem (frame w m) 0 p.input v (ground arith) fits in
      let at = set_services services ch in
      let (b', run, left) =
        seen-some (on_rpc_message w at.conn) (on_message w at.conn at b) ch' [] (
          receive w m at b a vb (cb ∙ ap (λ t. t ++ frame w m) empty)
          ∙ ap (λ o. o >>= λ ch'. some (ch', [])) d) in
      (b', rw (c, read, run) refl, left)

  -- If a connection comes up on an RPC server, then a service is registered, and then the whole
  -- frame of a request for a method of that service, which protobuf reads back and which keeps the
  -- limit, is read at once, no longer than `extrabuf`, and the method parses the bytes, then
  -- nothing aborts, and the connection's channel has called the service once, with the names, the
  -- id and the bytes of the request; it has sent the frame of the answer, which protobuf reads
  -- back and which keeps the limit, if the service answers within the call, and nothing otherwise;
  -- and its buffer is empty.
  pub request-served :
      (s : RpcServer) (conn start id : ℕ) (name method : String) (bytes : List ℕ) (early : Bool)
      (reply : List ℕ) (service : Service)
      → let m = request_message id name method bytes in
        let resp = response_message id reply in
        let services = assign_service name service s.services in
        let called : ServiceCall = record {
          service_name = name;
          method_name = method;
          argument = bytes;
          call_id = id;
        } in
        IsSendable w m
        → IsSendable w resp
        → length (frame w m) ≤ extra_size
        → service.has_method method ≡ true
        → service.parses method bytes ≡ true
        → service.at_once method bytes ≡ (if early then some reply else none)
        → (s₁ : RpcServer) × (p : Peer) × (on_connection true conn start s ≡ some s₁)
          × (server_message w conn (frame w m) (register_service name service s₁)
              ≡ some (record s₁ { services = services; peers = assign conn p s₁.peers }))
          × (p.context
              ≡ some (record (set_services services (new_channel conn start)) {
                calls = called ∷ [];
                sent = sent_early early (frame w resp);
              }))
          × (contents p.input ≡ [])
  unfolding on_connection peer_up register_service server_message on_peer new_channel
      request_message set_services dispatch call_of
  request-served s conn start id name method bytes early reply service a ar room h pr now =
      let (b, made, v, empty, reader) = new_buffer_lem initial_size (omega arith) in
      let m = request_message id name method bytes in
      let old = new_channel conn start in
      let p : Peer = record {
        context = some (set_services s.services old);
        input = b;
        past = [];
      } in
      let services = assign_service name service s.services in
      let final : RpcChannel = record (set_services services old) {
        calls = call_of m ∷ [];
        sent = sent_early early (frame w (response_message id reply));
      } in
      let s₁ = record s { peers = assign conn p s.peers } in
      let (b', read, left) =
        peer_reads-frame m services (set_services s.services old) final p refl v empty
          (omega (arith, length-contents b v, ap length empty, reader, v.ordered)) room a
          (accepted w early reply m service services (set_services services old) refl
            (find-assign_service name service s.services (eq_refl name)) h pr now ar) in
      (
        s₁,
        record p { context = some final; input = b' },
        rw made refl,
        rw (find-assign conn conn p s.peers, ==_refl conn, read) refl,
        refl,
        left,
      )
