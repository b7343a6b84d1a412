-- ===== src/Tests/PacketTests.antt =====
-- PacketProcessor on concrete bytes.
use drgb_server.Prelude.{ℕ, ◌≡◌, refl, some, none, true, List, [], ◌∷◌}
use drgb_server.PacketProcessor.{PacketProcessor, recv, recv_all, split, encapsulate, concat}
use drgb_server.PacketProcessor.Framing.{recv_all-sent}
use drgb_server.PacketProcessor.Stream.{recv_total, recv-append, recv_all-concat}

-- A message that holds the pattern and the terminator themselves.
abbrev awkward : List ℕ
awkward = 0x01 ∷ 0xee ∷ 0xff ∷ 0xee ∷ []

awkward_on_the_wire :
    encapsulate awkward ≡ 0x01 ∷ 0xee ∷ 0xee ∷ 0xff ∷ 0xee ∷ 0xee ∷ 0xee ∷ 0xff ∷ []
unfolding encapsulate
awkward_on_the_wire = refl

-- The fragments cut an escape and the terminator in two.
abbrev fragments : List (List ℕ)
fragments =
    (0x01 ∷ 0xee ∷ [])
    ∷ (0xee ∷ 0xff ∷ 0xee ∷ 0xee ∷ 0xee ∷ [])
    ∷ (0xff ∷ 0xee ∷ 0xff ∷ 0x07 ∷ 0xee ∷ 0xff ∷ [])
    ∷ []

abbrev two_messages : PacketProcessor
two_messages = record { is_running = true; msgs = awkward ∷ (7 ∷ []) ∷ []; recvbuffer = [] }

abbrev idle : PacketProcessor
idle = record { is_running = true; msgs = []; recvbuffer = [] }

abbrev halfway : PacketProcessor
halfway = record { is_running = true; msgs = []; recvbuffer = 0x01 ∷ 0xee ∷ [] }

-- The empty message between the two is dropped.
recv_all-sent_example : recv_all idle fragments ≡ some two_messages
unfolding encapsulate
recv_all-sent_example = recv_all-sent idle (awkward ∷ [] ∷ (7 ∷ []) ∷ []) fragments refl refl

recv_all-concat_example : recv_all halfway fragments ≡ recv halfway (concat fragments)
unfolding split
recv_all-concat_example = recv_all-concat halfway fragments refl

recv_total_example :
    (q : PacketProcessor) × (recv halfway (0xff ∷ 0xee ∷ []) ≡ some q)
    × (split q.recvbuffer ≡ none)
    × (q.is_running ≡ true)
recv_total_example = recv_total halfway (0xff ∷ 0xee ∷ [])

recv-append_example : recv idle (0x01 ∷ 0xee ∷ 0xff ∷ 0x07 ∷ []) ≡ recv halfway (0xff ∷ 0x07 ∷ [])
unfolding recv split
recv-append_example = recv-append idle halfway (0x01 ∷ 0xee ∷ []) (0xff ∷ 0x07 ∷ []) refl
