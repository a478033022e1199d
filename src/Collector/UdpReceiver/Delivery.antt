-- ===== src/Collector/UdpReceiver/Delivery.antt =====
-- A record on its way from logger/src/net/UdpSink.cpp to collector/core/net/UdpReceiver.cpp.
use loggerlib.Prelude.Int.{ℤ, pos}
use loggerlib.Collector.UdpReceiver.Datagram.{split_datagram-joined}
use loggerlib.Collector.UdpReceiver.{
  after_wait, pos, ℤ, UdpReceiver, receive, read_datagram, split_datagram, datagram_size,
}
use loggerlib.Collector.Net.Poll.{ready, wait_for_input, to_int}
use loggerlib.Common.Errors.{ErrorCode}
use loggerlib.Logger.Net.UdpSink.{UdpSink, send_datagram, sent_whole}
use loggerlib.Logger.Net.UdpSink
use loggerlib.Common.Net.Machine.{
  >>=-some, Call, poll_for, send_to, receive_from, Environment, Machine, answered,
}
use loggerlib.Prelude.{
  joined, ℕ, suc, ◌+◌, ◌≡◌, refl, sym, ap, ◌∙◌, true, false, some, List, [], ◌∷◌, ◌++◌, append-nil,
  arith, Bytes, Lacks, All, length, take, length-append, take_all,
}

-- The call by which a sink sends a line.
abbrev pub sending : UdpSink → Bytes → Call
sending sink line = send_to sink.socket.fd (line ++ b'\n' ∷ [])

-- The bytes that a call sends.
abbrev pub frame_of : Call → Bytes
frame_of (send_to fd frame) = frame
frame_of _ = []

split_taken :
    (sent lines : List Bytes) (size : ℕ) (payload : Bytes)
    → All (Lacks b'\n') sent
    → length (joined sent) ≡ suc size
    → payload ≡ joined sent
    → split_datagram (take (suc size) payload) lines ≡ some (lines ++ sent)
split_taken sent lines size payload whole long same =
    let taken : take (suc size) payload ≡ joined sent ++ [] =
      rw (same, ← long, take_all (joined sent)) (sym (append-nil (joined sent))) in
    ap (λ text. split_datagram text lines) taken
    ∙ split_datagram-joined sent [] lines whole tt
    ∙ ap (λ all. some (lines ++ all)) (append-nil sent)

module _ {W : Type 0} (environment : Environment W) where
  -- When a line goes out whole, the sink has made one call, which sends the line with a newline.
  pub write_line_whole :
      (patience : ℕ) (sink : UdpSink) (line : Bytes) (ec : ErrorCode) (m : Machine W)
      → (environment m.world (sending sink line)).0.result ≡ pos (length line + 1)
      → UdpSink.write_line environment (suc patience) sink line ec m
        ≡ some
            ((true, ec), answered m (sending sink line) (environment m.world (sending sink line)))
  unfolding UdpSink.write_line send_datagram sent_whole
  write_line_whole patience sink line ec m h = ground arith

  -- What `receive` is to find: there is input, and it is the datagram.
  abbrev pub waiting : UdpReceiver → ℤ → Call
  waiting r timeout = poll_for (r.listener.socket.fd ∷ []) false (to_int timeout)

  abbrev pub taking : UdpReceiver → Call
  taking r = receive_from r.listener.socket.fd datagram_size

  read_datagram-joined :
      (r : UdpReceiver) (sent lines : List Bytes) (ec : ErrorCode) (size : ℕ) (m : Machine W)
      → All (Lacks b'\n') sent
      → let answer = environment m.world (taking r) in
        answer.0.result ≡ pos (suc size)
        → length (joined sent) ≡ suc size
        → answer.0.payload ≡ joined sent
        → read_datagram environment r lines ec m
          ≡ some (
            record { ok = true; ec = ec; lines = lines ++ sent; receiver = r },
            answered (record m { errno = 0 }) (taking r) answer,
          )
  unfolding read_datagram
  read_datagram-joined r sent lines ec size m whole got long same =
      let split =
        split_taken sent lines size (environment m.world (taking r)).0.payload whole long same in
      rw (got, split) (ground arith)

  wait_for_input-ready :
      (fds : List ℤ) (timeout : ℤ) (n : ℕ) (m : Machine W)
      → let call = poll_for fds false (to_int timeout) in
        let answer = environment m.world call in
        answer.0.result ≡ pos (suc n)
        → wait_for_input environment fds timeout m
          ≡ some (ready answer.0.revents, answered (record m { errno = 0 }) call answer)
  unfolding wait_for_input
  wait_for_input-ready fds timeout n m h = ground arith

  pub receive-joined :
      (r : UdpReceiver) (sent : List Bytes) (lines : List Bytes) (timeout : ℤ) (ec : ErrorCode)
      (ready size : ℕ) (m : Machine W)
      → All (Lacks b'\n') sent
      → let first = environment m.world (waiting r timeout) in
        let second = environment first.1 (taking r) in
        first.0.result ≡ pos (suc ready)
        → second.0.result ≡ pos (suc size)
        → length (joined sent) ≡ suc size
        → second.0.payload ≡ joined sent
        → (m' : Machine W) × (receive environment r lines timeout ec m
            ≡ some (record { ok = true; ec = ec; lines = lines ++ sent; receiver = r }, m'))
  unfolding receive after_wait
  receive-joined r sent lines timeout ec n size m whole input got long same =
      let first = environment m.world (waiting r timeout) in
      let m1 = answered (record m { errno = 0 }) (waiting r timeout) first in
      let second = environment first.1 (taking r) in
      let m2 = answered (record m1 { errno = 0 }) (taking r) second in
      let waited = wait_for_input-ready (r.listener.socket.fd ∷ []) timeout n m input in
      let done = read_datagram-joined r sent lines ec size m1 whole got long same in
      let chain =
        >>=-some (wait_for_input environment (r.listener.socket.fd ∷ []) timeout)
          (λ waited. after_wait environment r lines ec waited) (ready first.0.revents) m m1
          waited in
      (m2, chain ∙ done)

  -- A line with no newline inside that a sink has sent whole is what the receiver gives next, when the
  -- datagram that it takes is the frame that the sink sent; neither reports an error.
  pub udp_delivery :
      (patience : ℕ) (sink : UdpSink) (line : Bytes) (from : Machine W) (r : UdpReceiver)
      (lines : List Bytes) (timeout : ℤ) (ec : ErrorCode) (n : ℕ) (m : Machine W)
      → Lacks b'\n' line
      → let sent = environment from.world (sending sink line) in
        let first = environment m.world (waiting r timeout) in
        let second = environment first.1 (taking r) in
        sent.0.result ≡ pos (length line + 1)
        → first.0.result ≡ pos (suc n)
        → second.0.result ≡ sent.0.result
        → second.0.payload ≡ frame_of (sending sink line)
        → (UdpSink.write_line environment (suc patience) sink line ec from
            ≡ some ((true, ec), answered from (sending sink line) sent))
          × ((m' : Machine W) × (receive environment r lines timeout ec m
                ≡ some
                    (record { ok = true; ec = ec; lines = lines ++ line ∷ []; receiver = r }, m')))
  udp_delivery patience sink line from r lines timeout ec n m plain went input size same =
      let one : joined (line ∷ []) ≡ line ++ b'\n' ∷ [] = unfold joined in refl in
      let long : length (joined (line ∷ [])) ≡ suc (length line) =
        omega (arith, ap length one, length-append line (b'\n' ∷ [])) in
      (
        write_line_whole patience sink line ec from went,
        receive-joined r (line ∷ []) lines timeout ec n (length line) m (plain, tt) input
            (size ∙ went ∙ ap pos (omega arith)) long (same ∙ sym one),
      )
