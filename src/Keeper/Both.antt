-- ===== src/Keeper/Both.antt =====
-- Two keepers at once.
use sweat_jar.Base.{ℕ}
use sweat_jar.Keeper.{Keeper}

abbrev pub both : {now : ℕ} → Keeper now → Keeper now → Keeper now
both K L = record {
  IsKept = λ c. K.IsKept c × L.IsKept c;
  IsKeptAccount = λ id a. K.IsKeptAccount id a × L.IsKeptAccount id a;
  read = λ c id h e. (K.read c id h.0 e, L.read c id h.1 e);
  write = λ c id a h ha. (K.write c id a h.0 ha.0, L.write c id a h.1 ha.1);
  create = λ c id h. (K.create c id h.0, L.create c id h.1);
  change_jar = λ id a j jar' h e quiet.
      (K.change_jar id a j jar' h.0 e quiet, L.change_jar id a j jar' h.1 e quiet);
  change_score = λ id a s h le. (K.change_score id a s h.0 le, L.change_score id a s h.1 le);
  change_features =
      λ id a f h lt. (K.change_features id a f h.0 lt, L.change_features id a f h.1 lt);
  change_timezone = λ id a tz h. (K.change_timezone id a tz h.0, L.change_timezone id a tz h.1);
  change_nonce = λ id a n h. (K.change_nonce id a n h.0, L.change_nonce id a n h.1);
}
