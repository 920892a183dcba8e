-- ===== src/Tests/Wired.antt =====
-- A kernel that moves one byte at a call, and a host on it.
use so2_final.Base.{ℕ, zero, suc, ◌≡◌, refl, ap, List, [], ◌∷◌, ◌++◌, length, arith}
use so2_final.Network.ByteOrder.{little_endian, little_endian-IsByteOrder}
use so2_final.Network.Kernel.{Kernel, IsReliable, IsClosed, Sent, took, Received, got}
use so2_final.Network.Manager.{Platform, IsPlatform}

pub record Wires : Type 0 where
  pub ingoing : List ℕ
  pub outgoing : List ℕ

abbrev send_byte : Wires → List ℕ → Sent Wires
send_byte w [] = took 0 w
send_byte w (b ∷ bs) = took 1 (record w { outgoing = w.outgoing ++ (b ∷ []) })

abbrev pub read_byte : List ℕ → Wires → Received Wires
read_byte [] w = got [] w
read_byte (b ∷ bs) w = got (b ∷ []) (record w { ingoing = bs })

abbrev pub byte_kernel : Kernel
byte_kernel = record { Conn = Wires; send = send_byte; recv = λ w n. read_byte w.ingoing w }

abbrev pub byte_kernel-IsReliable : IsReliable byte_kernel
byte_kernel-IsReliable = record {
  incoming = λ w. w.ingoing;
  outgoing = λ w. w.outgoing;
  send-took =
      λ w b bs. (0, record w { outgoing = w.outgoing ++ (b ∷ []) }, refl, omega arith, refl, refl);
  recv-got = λ w n b bs e.
      ([], record w { ingoing = bs }, ap (λ l. read_byte l w) e, omega arith, refl, refl);
}

abbrev pub zeros : ℕ → List ℕ
zeros zero = []
zeros (suc n) = 0 ∷ zeros n

pub length-zeros : (n : ℕ) → length (zeros n) ≡ n
length-zeros zero = refl
length-zeros (suc n) = ap suc (length-zeros n)

abbrev pub host : Platform
host = record { order = little_endian; kernel = byte_kernel; fresh = zeros }

abbrev pub host-IsPlatform : IsPlatform host
host-IsPlatform = record {
  lawful = little_endian-IsByteOrder;
  up = byte_kernel-IsReliable;
  sized = length-zeros;
}

-- A connection that the peer has closed, with nothing left to read.
abbrev pub hung_up : Wires
hung_up = record { ingoing = []; outgoing = [] }

pub hung_up-IsClosed : IsClosed byte_kernel hung_up
hung_up-IsClosed = record { recv-end = λ n. refl }
