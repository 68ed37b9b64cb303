-- ===== src/Devices/Archon/Tests/Image.antt =====
-- A frame of two pixels that is fetched.
use foxtrot.Base.{ℕ, Bool, true, false, Option, none, some, List, [], ◌∷◌, ◌++◌}
use foxtrot.Base.Int.{pos}
use foxtrot.Base.Decimal.{replicate}
use foxtrot.Base.Texts.{Text, bytes}
use foxtrot.Base.Action.{give}
use foxtrot.Devices.Archon.{Archon}
use foxtrot.Devices.Archon.Buffers.{take_buffer}
use foxtrot.Devices.Archon.Buffers.Pixels.{sent_block}

abbrev frame_text : Text
frame_text = bytes "BUF1COMPLETE=1 BUF1WIDTH=2 BUF1HEIGHT=1 BUF1BASE=16 BUF1SAMPLE=0"

-- A controller that answers every command with the frame status, and then sends the blocks it holds.
abbrev frame_answer : Text → List Text → Option Text × List Text
frame_answer (_ ∷ a ∷ b ∷ _) held = (some (b'<' ∷ a ∷ b ∷ frame_text), held)
frame_answer _ held = (none, held)

abbrev accepts : Text → List Text → Bool × List Text
accepts _ held = (true, held)

abbrev has_block : List Text → Option ℕ × List Text
has_block held = (some 1028, held)

abbrev next_block : ℕ → List Text → Option Text × List Text
next_block len [] = (none, [])
next_block len (block ∷ held) = (some block, held)

abbrev image : List ℕ
image = 258 ∷ 65535 ∷ []

abbrev padding : List ℕ
padding = replicate 510 7

abbrev block : List ℕ
block = image ++ padding

abbrev held_blocks : List Text
held_blocks = sent_block false b'0' b'0' block ∷ []

abbrev before : Archon (List Text)
before = record {
  order = 0;
  system = [];
  status = [];
  frame = [];
  config_line_map = [];
  state_names = [];
  parammap = [];
  constantmap = [];
  ad_tap_line_map = [];
  config_lines = 0;
  taplines = 0;
  arch_tmr = 0;
  sys_tmr = 0;
  dev = held_blocks;
}

abbrev locked : Archon (List Text)
locked = (take_buffer accepts has_block next_block frame_answer (give tt) (pos 1) before).1
