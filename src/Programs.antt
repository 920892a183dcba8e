-- ===== src/Programs.antt =====
-- server_main.cpp and client_main.cpp: what the arguments of the two programs start.
use so2_final.Base.{
  ℕ, ◌^◌, ◌<◌, ◌≡◌, ◌∙◌, Option, none, some, List, [], ◌∷◌, M, ok, ◌>>=◌, >>=-ok, return, throw,
  null_payload, false,
}
use so2_final.Decimal.{Signed, to_string, stoi}
use so2_final.Decimal.RoundTrip.{stoi-to_string}

-- A leader on a port, or a backup on a port with the address and the port of the leader.
pub data ServerStart : Type 0 where
  lead : Signed → ServerStart
  back : Signed → List ℕ → Signed → ServerStart

-- `none` is the usage text. The last argument, `-l` or `-b`, is not read.
unfoldable pub server_main : {S : Type 0} → List (List ℕ) → M S (Option ServerStart)
server_main (program ∷ port ∷ flag ∷ []) = do p ← stoi port; return (some (lead p))
server_main (program ∷ port ∷ ip ∷ leader_port ∷ flag ∷ []) = do
  p ← stoi port
  q ← stoi leader_port
  return (some (back p ip q))
server_main args = return none

pub record ClientStart : Type 0 where
  pub username : List ℕ
  pub server_ip : List ℕ
  pub server_port : List ℕ

-- Behind `argc - 1` arguments stands a null pointer, of which no string can be made.
unfoldable pub client_main : {S : Type 0} → List (List ℕ) → M S (Option ClientStart)
client_main (program ∷ username ∷ server_ip ∷ server_port ∷ more) =
    return (some (record { username = username; server_ip = server_ip; server_port = server_port }))
client_main (program ∷ username ∷ server_ip ∷ []) = throw null_payload
client_main args = return none

abbrev port_number : ℕ → Signed
port_number n = record { negative = false; size = n }

-- The arguments that start a leader on a port.
pub server_main-lead :
    {S : Type 0} (program flag : List ℕ) (n : ℕ) (s : S)
    → n < 2 ^ 31
    → server_main (program ∷ to_string n ∷ flag ∷ []) s ≡ ok (some (lead (port_number n))) s
unfolding server_main
server_main-lead program flag n s h = >>=-ok (stoi (to_string n)) _ s (stoi-to_string n s h)

-- Four arguments start a backup; a flag in the place of the last one is not told from any other.
pub server_main-back :
    {S : Type 0} (program ip flag : List ℕ) (m n : ℕ) (s : S)
    → m < 2 ^ 31
    → n < 2 ^ 31
    → server_main (program ∷ to_string m ∷ ip ∷ to_string n ∷ flag ∷ []) s
      ≡ ok (some (back (port_number m) ip (port_number n))) s
unfolding server_main
server_main-back program ip flag m n s hm hn =
    >>=-ok (stoi (to_string m)) _ s (stoi-to_string m s hm)
    ∙ >>=-ok (stoi (to_string n)) _ s (stoi-to_string n s hn)
