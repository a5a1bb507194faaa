-- ===== src/Chat.antt =====
-- The chats of the admin pages: the live connection, and the lists that its queries keep.
pub mod Socket
pub mod Cache
pub mod Messages
