-- ===== src/Error/Text.antt =====
-- The texts of `pure64_strerror`.
use pure.Prelude.{◌≡◌, refl, ◌↔◌}
use pure.Error.{
  Error, efault, enomem, eisdir, enotdir, enoent, eexist, einval, enosys, eio, code, strerror,
  unknown_text,
}

-- Of the declared error codes, ENOENT, and no other, has the text of an unknown error.
pub strerror_unknown : (e : Error) → (strerror (code e) ≡ unknown_text) ↔ (e ≡ enoent)
unfolding strerror
strerror_unknown efault = (λ h. cc, λ h. cc)
strerror_unknown enomem = (λ h. cc, λ h. cc)
strerror_unknown eisdir = (λ h. cc, λ h. cc)
strerror_unknown enotdir = (λ h. cc, λ h. cc)
strerror_unknown enoent = (λ h. refl, λ h. refl)
strerror_unknown eexist = (λ h. cc, λ h. cc)
strerror_unknown einval = (λ h. cc, λ h. cc)
strerror_unknown enosys = (λ h. cc, λ h. cc)
strerror_unknown eio = (λ h. cc, λ h. cc)
