-- ===== src/Accounts/Devices.antt =====
-- DeviceService of apps/accounts/services.py, with `register_device` and `count_devices` of
-- apps/accounts/interface.py and the job `prune_revoked_devices`. Python's `lower`, `title` and `in` on
-- texts are the section's parameters.
use date_app.Common.{
  ℕ, ◌+◌, ◌*◌, Bool, true, false, not, ◌&&◌, ◌||◌, Option, none, some, List, [], ◌∷◌, ◌++◌, map,
  ltb, ◌==◌, if◌then◌else◌, is_some, Text, codes, is_empty, take, first_where, filter_by,
  exists_where, count_where, update_where, delete_where, Action, ZynoraError, pure, gets, or_raise,
  ◌>>=◌, ◌>>◌, modify, same_text,
}
use date_app.Accounts.Models.{Platform, Device, revoked_device, Store, is_id}

abbrev pub is_own_device : ℕ → ℕ → Device → Bool
is_own_device user id d = d.id == id && d.user == user

abbrev pub is_fingerprint : ℕ → Text → Device → Bool
is_fingerprint user fingerprint d = d.user == user && same_text d.fingerprint fingerprint

abbrev pub is_device_of : ℕ → Device → Bool
is_device_of user d = d.user == user

abbrev pub is_live_device : Device → Bool
is_live_device d = not (is_some d.revoked_at)

-- `ip or device.ip_address`
abbrev or_old : Option ℕ → Option ℕ → Option ℕ
or_old none old = old
or_old (some ip) old = some ip

-- A device that is seen again.
unfoldable pub seen_again : ℕ → Text → Option ℕ → Device → Device
seen_again now user_agent ip d = record d {
  last_seen_at = now;
  ip_address = or_old ip d.ip_address;
  user_agent = if is_empty user_agent then d.user_agent else user_agent;
  revoked_at = none;
}

module _ (lower title : Text → Text) (is_in : Text → Text → Bool) where
  -- `next((b for b in ... if b in agent), default)`
  abbrev first_named : List Text → Text → Text → Text
  first_named [] agent default = default
  first_named (b ∷ bs) agent default = if is_in b agent then b else first_named bs agent default

  -- `DeviceService.detect_platform`
  unfoldable pub detect_platform : Text → Platform
  detect_platform user_agent =
      let agent = lower user_agent in
      if is_in (codes "android") agent
      then Platform.android
      else if is_in (codes "iphone") agent
          || is_in (codes "ipad") agent
          || is_in (codes "ios") agent
      then Platform.ios
      else if is_empty agent
      then Platform.unknown
      else Platform.web

  -- `DeviceService.describe`
  unfoldable pub describe : Text → Text
  describe user_agent =
      let agent = lower user_agent in
      let browser =
        first_named (codes "edg" ∷ codes "chrome" ∷ codes "firefox" ∷ codes "safari" ∷ []) agent
          (codes "browser") in
      let system =
        first_named
          (codes "windows" ∷ codes "mac" ∷ codes "linux" ∷ codes "android" ∷ codes "iphone" ∷ [])
          agent (codes "device") in
      take 120 (title browser ++ codes " on " ++ title system)

  -- The row that `register` makes, trusted if it is the member's first.
  unfoldable pub new_device : ℕ → ℕ → ℕ → Text → Text → Option ℕ → Bool → Device
  unfolding detect_platform describe
  new_device now id user fingerprint user_agent ip is_trusted = record {
    id = id;
    user = user;
    fingerprint = fingerprint;
    name = describe user_agent;
    platform = detect_platform user_agent;
    user_agent = user_agent;
    ip_address = ip;
    push_token = [];
    is_trusted = is_trusted;
    last_seen_at = now;
    revoked_at = none;
  }

  -- `DeviceService.register`, without a platform or name of its own.
  unfoldable pub register : ℕ → ℕ → ℕ → Text → Text → Option ℕ → Store → Option Device × Store
  unfolding new_device seen_again
  register now id user fingerprint user_agent ip s =
      let mine = is_fingerprint user fingerprint in
      let added =
        new_device now id user fingerprint user_agent ip
          (not (exists_where (is_device_of user) s.devices)) in
      if is_empty fingerprint then (none, s) else elim (first_where mine s.devices) [
        | none ↦ (some added, record s { devices = added ∷ s.devices })
        | some d ↦ (
          some (seen_again now user_agent ip d),
          record s { devices = update_where mine (seen_again now user_agent ip) s.devices },
        )
      ]

  -- `AccountsInterface.register_device`
  unfoldable pub register_device :
      ℕ → ℕ → ℕ → Text → Text → Option ℕ → Store → Option Device × Store
  unfolding register
  register_device now id user fingerprint user_agent ip s =
      if exists_where (is_id user) s.users
      then register now id user fingerprint user_agent ip s
      else (none, s)

-- `DeviceService.revoke`
unfoldable pub revoke : ℕ → ℕ → ℕ → Action Store Device
revoke now user id = do
  d ←
      or_raise (← gets (λ s. first_where (is_own_device user id) s.devices))
        (ZynoraError.not_found "Device not found.")
  modify λ s. record s {
    devices = update_where (is_own_device user id) (revoked_device now) s.devices;
  }
  pure (revoked_device now d)

-- `DeviceService.trust`
unfoldable pub trust : ℕ → ℕ → Store → Store
trust user id s = record s {
  devices =
      update_where (is_own_device user id) (λ d. record d { is_trusted = true; revoked_at = none })
        s.devices;
}

-- `DeviceService.push_tokens_for`
unfoldable pub push_tokens_for : ℕ → Store → List Text
push_tokens_for user s =
    map (λ (d : Device). d.push_token)
      (filter_by (λ d. is_device_of user d && is_live_device d && not (is_empty d.push_token))
        s.devices)

-- `AccountsInterface.count_devices`
unfoldable pub count_devices : ℕ → Store → ℕ
count_devices user s = count_where (λ d. is_device_of user d && is_live_device d) s.devices

-- `prune_revoked_devices`
abbrev pub is_long_revoked : ℕ → ℕ → Device → Bool
is_long_revoked now days d = elim d.revoked_at [
  | none ↦ false
  | some t ↦ ltb (t + days * 86400) now
]

unfoldable pub prune_revoked_devices : ℕ → ℕ → Store → Store
prune_revoked_devices now days s = record s {
  devices = delete_where (is_long_revoked now days) s.devices;
}
