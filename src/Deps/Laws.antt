-- ===== src/Deps/Laws.antt =====
-- Consequences of the packages' laws.
use grip.Common.{ℕ, ◌≡◌, refl, ◌∙◌, some, [], ◌∷◌, arith, if◌then◌else◌, ap, sym}
use grip.Common.Bytes.{Bytes, bytes_eq, bytes_eq_iff}
use grip.Deps.{Deps, Entries, find, upsert}

pub find-upsert :
    (k j : Bytes) (s : ℕ) (es : Entries)
    → find j (upsert k s es) ≡ (if bytes_eq k j then some s else find j es)
unfolding find upsert
find-upsert k j s [] = refl
find-upsert k j s ((i, t) ∷ es) =
    ground (arith, bytes_eq_iff k j, bytes_eq_iff i k, bytes_eq_iff i j, find-upsert k j s es)

pub get-insert :
    (d : Deps) (m : d.Map) (k j : Bytes) (s : ℕ)
    → d.get (d.insert m k s) j ≡ (if bytes_eq k j then some s else d.get m j)
get-insert d m k j s =
    d.get-find (d.insert m k s) j
    ∙ ap (find j) (d.entries-insert m k s)
    ∙ find-upsert k j s (d.entries m)
    ∙ ap (λ o. if bytes_eq k j then some s else o) (sym (d.get-find m j))
