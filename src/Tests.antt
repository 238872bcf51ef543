-- ===== src/Tests.antt =====
-- Concrete data, at which the theorems of the other modules are applied.
pub mod PlainText
pub mod Stores
pub mod Views
pub mod Accounts
pub mod Registrations
pub mod Texts
pub mod Composers
pub mod Archives
pub mod Sockets
pub mod Lives
pub mod Calls
pub mod Pages
pub mod Requests
pub mod Api
pub mod Sidebars
pub mod Searches
pub mod Groups
pub mod Phones
pub mod Desktops
