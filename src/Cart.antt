-- ===== src/Cart.antt =====
-- internal/cart: carts, their lines, and the voucher applied to a cart.
pub mod Store
pub mod Service
pub mod Evaluate
pub mod Merge
pub mod Rows
pub mod Written
pub mod Lines
pub mod Priced
pub mod Commands
pub mod Scope
pub mod Amounts
pub mod Agreement
mod Examples
