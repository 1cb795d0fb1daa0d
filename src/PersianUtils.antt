-- ===== src/PersianUtils.antt =====
-- packages/persian-utils/src: validation of Iranian IBANs, national ids and phone numbers, and the
-- two digit scripts. A JavaScript string is the list of its code units.
pub mod Chars
pub mod Iban
pub mod NationalId
pub mod Phone
pub mod Numerals
