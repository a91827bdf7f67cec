-- ===== src/World/Reads.antt =====
-- Calls that only read, and the calls of the functions of pkg/helper that only read.
use gardener_extension_priva.Base.{◌≡◌, refl, false, List, [], ◌∷◌, ◌++◌, All}
use gardener_extension_priva.World.Calls.{Call, is_write, writes}
use gardener_extension_priva.World.Monad.{M}
use gardener_extension_priva.World.Emits.{Emits, Grown}

abbrev pub IsRead : Call → Type 0
IsRead c = is_write c ≡ false

writes-append : (new h : List Call) → All IsRead new → writes (new ++ h) ≡ writes h
writes-append [] h p = refl
writes-append (c ∷ new) h p = rw (p.0, writes) (writes-append new h p.1)

pub writes-Grown : {h h' : List Call} → Grown IsRead h h' → writes h' ≡ writes h
writes-Grown {h} (new, e, p) = rw e (writes-append new h p)

-- An action that only reads leaves the writes as they are.
pub writes-Emits :
    {A : Type 0} (m : M A) → Emits IsRead m → (h : List Call) → writes (m h).1 ≡ writes h
writes-Emits m em h = writes-Grown (em.at h)

-- A predicate that all reads satisfy.
abbrev pub CoversReads : (Call → Type 0) → Type 0
CoversReads P = (c : Call) → IsRead c → P c
