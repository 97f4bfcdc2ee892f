-- ===== src/Stream/Transfer.antt =====
-- A body from the writer of one peer to the reader of the other (src/stream_impl.hpp). That nghttp2
-- delivers to one stream what it pulled out of the other is a hypothesis.
use nghttp2_corosio.Base.{ℕ, ◌<◌, ◌≡◌, ◌∙◌, true, false, none, ◌++◌, Bytes}
use nghttp2_corosio.Capy.{AsyncEvent, BufferCopy, ErrorCode}
use nghttp2_corosio.Stream.Read
use nghttp2_corosio.Stream.Read.{read_some}
use nghttp2_corosio.Stream.Read.Order
use nghttp2_corosio.Stream.Read.Order.{Side}
use nghttp2_corosio.Stream.Read.Delivery
use nghttp2_corosio.Stream.Read.Delivery.{Reach-read_some_failed}
use nghttp2_corosio.Stream.Write.Progress
use nghttp2_corosio.Stream.Write.Progress.{Sending}
use nghttp2_corosio.Stream.Write.Delivery as WriteDelivery
use nghttp2_corosio.Stream.Write.Delivery.{Reach-write_eof_done}

module _ {Event : Type 0} ⦃events : AsyncEvent Event⦄ ⦃buffers : BufferCopy⦄ where
  -- A writer's write_eof() has been woken on a stream that is not closed, after any history; a reader
  -- of the other peer, after any history in which just the bytes that nghttp2 pulled from the writer
  -- arrived, gets an error from read_some() with room, while no other read waits. Then the reader has
  -- been handed exactly the bytes that the writer's finished writes reported and those that the
  -- write_eof() was called with, in order.
  body_round_trip :
      (id peer_id room : ℕ) (tag peer_tag : Bytes) (e : ErrorCode) {x : Sending Event}
      {y : Side Event}
      → Progress.Reach (WriteDelivery.start id tag) x
      → x.suspended ≡ true
      → x.stream.write_eof_requested ≡ true
      → x.stream.closed ≡ false
      → events.is_set x.stream.write_progress ≡ true
      → Order.Reach (Delivery.start peer_id peer_tag) y
      → y.arrived ≡ x.body
      → y.stream.read_sink ≡ none
      → 0 < room
      → (read_some room y.stream).1 ≡ Read.failed e
      → y.taken ≡ x.reported ++ x.given
  body_round_trip id peer_id room tag peer_tag e w waits end live set r same idle space over =
      (Reach-read_some_failed peer_id peer_tag room e r idle space over).0
      ∙ same
      ∙ (Reach-write_eof_done id tag w waits end live set).2
