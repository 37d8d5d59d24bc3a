-- ===== src/Scenarios.antt =====
-- Concrete parameters, and small runs of the code on them.
mod Reports
mod Leaders
mod JobRuns
mod Messages
mod Engines
mod Epochs
mod Answers
mod Streams
mod Nodes
mod Wires
mod Rounds
mod Starts
mod Texts
mod Worlds
mod Exchanges
mod Clocks
mod Members
mod Signers
use eavesdrop.Prelude.{ℕ, Option, none, some, List, [], ◌∷◌, Bytes, Permᴰ}
use mathlib.Core.List.Permᴰ
use eavesdrop.GoMap.{MapOrder}
use eavesdrop.Jobs.{Value, number}
use eavesdrop.Consensus.{Hashing}

-- A serialisation of numbers; other values have none.
abbrev marshal_number : Value → Option Bytes
marshal_number (number n) = some (n ∷ [])
marshal_number _ = none

abbrev pub plain_hashing : Hashing
plain_hashing = record { marshal = marshal_number; sum256 = λ b. b }

-- Maps are ranged over as they were written.
abbrev pub written_order : MapOrder
written_order = record { visit = λ A xs. xs; visit_perm = λ A xs. Permᴰ.refl xs }
