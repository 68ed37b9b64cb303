-- ===== src/Devices/Rly8/Commands.antt =====
-- What the commands report, given what the board answers.
use foxtrot.Base.{
  ℕ, ◌-◌, ◌/◌, ◌%◌, ◌^◌, ◌≤◌, ◌<◌, ◌≡◌, Bool, List, [], ◌∷◌, ◌⊎◌, arith, ok, err, ◌==◌, leb, ◌&&◌,
  length, if◌then◌else◌,
}
use foxtrot.Devices.Rly8.{
  bad_channel, failed, out_of_bounds, Command, query_relay_state, set_relay, assemble_cmd, transact,
  get_relay_state, set_relay_to, get_relay,
}
use foxtrot.Devices.Rly8.Frames.{extract_response-assemble_cmd}

module _ (addr : ℕ) (exchange : List ℕ → List ℕ) where
  -- A channel outside 1 to 8 is refused before anything is sent: the outcome is the same whatever
  -- the board would answer.
  pub set_relay_bad_channel :
      (channel : ℕ) (onoff : Bool)
      → (channel < 1) ⊎ (8 < channel)
      → set_relay_to addr exchange channel onoff ≡ err bad_channel
  unfolding set_relay_to
  set_relay_bad_channel channel onoff h = ground arith

  -- If the board answers a command with a well-formed frame of less than 128 bytes of data, then
  -- that data is what the command gets.
  pub transact_answer :
      (cmd : Command) (request answer sent : List ℕ)
      → length sent ≤ 255
      → length answer < 128
      → assemble_cmd addr cmd sent ≡ ok request
      → assemble_cmd addr cmd answer ≡ ok (exchange request)
      → transact addr exchange cmd sent ≡ ok answer
  unfolding transact
  transact_answer cmd request answer sent hs ha e f =
      ground (arith, extract_response-assemble_cmd addr cmd answer ha)

  -- `setRelay` succeeds on a channel from 1 to 8 exactly if the board's answer is the status 0; it
  -- reports a failure on any other status.
  pub set_relay_to_status :
      (channel status : ℕ) (onoff : Bool) (request : List ℕ)
      → 1 ≤ channel
      → channel ≤ 8
      → assemble_cmd addr set_relay (channel ∷ (if onoff then 1 else 0) ∷ []) ≡ ok request
      → assemble_cmd addr set_relay (status ∷ []) ≡ ok (exchange request)
      → set_relay_to addr exchange channel onoff ≡ (if status == 0 then ok tt else err failed)
  unfolding set_relay_to
  set_relay_to_status channel status onoff request lo hi e f = ground (
    arith,
    transact_answer set_relay request (status ∷ []) (channel ∷ (if onoff then 1 else 0) ∷ [])
        (omega arith) (omega arith) e f,
  )

  -- If the board answers with one state byte, then `getRelay` reads the bit of its channel on the
  -- channels 1 to 8, and reads outside the bitset on any other: no check guards the index.
  pub get_relay_bit :
      (channel state : ℕ) (request : List ℕ)
      → assemble_cmd addr query_relay_state [] ≡ ok request
      → assemble_cmd addr query_relay_state (state ∷ []) ≡ ok (exchange request)
      → get_relay addr exchange channel ≡ (
          if leb 1 channel && leb channel 8
          then ok ((state / 2 ^ (channel - 1)) % 2 == 1)
          else err out_of_bounds)
  unfolding get_relay get_relay_state
  get_relay_bit channel state request e f = ground (
    arith,
    transact_answer query_relay_state request (state ∷ []) [] (omega arith) (omega arith) e f,
  )
