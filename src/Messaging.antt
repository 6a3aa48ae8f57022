-- ===== src/Messaging.antt =====
-- peoplebot/messaging.py: messages that an environment publishes in its own Git history and that its
-- peers read. `Message` has the message and its dict, `Store` the history, `Remote` publication.
pub mod Message
pub mod Store
pub mod Remote
pub mod Owned
