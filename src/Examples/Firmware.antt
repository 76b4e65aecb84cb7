-- ===== src/Examples/Firmware.antt =====
-- Versions of asusrouter/modules/firmware.py at concrete inputs.
use asusrouter.Base.{◌≡◌, refl, false, true, some}
use asusrouter.Base.Int.{pos}
use asusrouter.Base.Text.{codes, split}
use asusrouter.Firmware.{Firmware, Revision, number, word, merlin}
use asusrouter.Firmware.Compare.{less, greater, equal}
use asusrouter.Firmware.Greater.{less-greater}

abbrev version : Revision → Firmware
version r = record {
  major = some (codes "3.0.0.4");
  minor = some (pos 388);
  build = some (pos 4);
  revision = r;
  source = merlin;
  rog = false;
  beta = false;
}

-- A second beta and the release.
abbrev second_beta : Firmware
second_beta = version (word (codes "2beta1"))

abbrev second : Firmware
second = version (number (pos 2))

beta_first : less second_beta second ≡ some true
unfolding less split
beta_first = refl

less-greater_example :
    (less second second_beta ≡ some false)
    × (greater second_beta second ≡ some false)
    × (greater second second_beta ≡ some true)
    × (equal second second_beta ≡ false)
less-greater_example = less-greater second_beta second beta_first

-- The numbers are compared as texts here: a tenth release counts as older than the second beta.
tenth_first : less (version (number (pos 10))) second_beta ≡ some true
unfolding less split
tenth_first = refl
